-- ===== src/World.antt =====
-- The state of the running service: its PostgreSQL tables (migrations/*.sql), and the log of the
-- calls that it makes of the outside.
--
-- What is outside answers by the record `Ext`. Each answer may depend on the whole log, whose head
-- is the call that is answered, so every behaviour of the database, the object store, the payment
-- gateways, the mail service, the clocks and the random source is some value of `Ext`.
mod Tables
mod Actions
pub mod Keeps
pub mod Refusals
pub use Tables.*
pub use Actions.*
