-- ===== src/Auth/Emails.antt =====
-- internal/auth/service.go: what a confirmed change of the e-mail needs, and what it changes.
use nexium_storage_back.World.{World}
