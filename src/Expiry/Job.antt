-- ===== src/Expiry/Job.antt =====
-- internal/expiry/job.go: one run of the job, its six passes in their order. A pass that fails is
-- logged, and the next one runs; within a pass, so is a user.
mod Loops
mod Ending
mod Reminders
mod Deleting
unfoldable pub use Loops.*
unfoldable pub use Ending.*
unfoldable pub use Reminders.*
unfoldable pub use Deleting.*
use nexium_storage_back.World.{Action, ignore, ◌>>◌}

unfoldable run : Action (Unit {0})
run = do
  ignore expire_subscriptions
  ignore remind_expiring_subscriptions
  ignore remind_grace_period_users
  ignore delete_grace_period_data
  ignore warn_inactive_users
  ignore delete_expired_files
