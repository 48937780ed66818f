-- ===== src/Examples.antt =====
-- The theorems at concrete inputs: a small database, and an outside that answers.
mod Fixtures
mod Storage
mod Payments
mod Gates
mod Hooks
mod Upkeep
mod Members
mod Sessions
mod Platform
mod Documents
mod Administration
