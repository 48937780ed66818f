-- ===== src/Files/Operations/Checks.antt =====
-- internal/files/service.go: the service, and what it checks before an upload.
use Prim.Native.String.{◌++◌ as ◌+s◌}
use nexium_storage_back.Shared.{
  ℕ, Bool, false, not, ◌&&◌, String, Option, none, some, ◌==◌, ◌=s=◌, ltb, if◌then◌else◌, ℤ, pos,
  negsuc, add_int64, gtb_ℤ, bad_request, Result, ok, err,
}
use nexium_storage_back.World.{Action, pure, attempt, ◌>>=◌, ◌>>◌, raise_if, uuid_text}
use nexium_storage_back.Files.Store.{total_storage_bytes_by_user}

-- The struct `service`. The URLs have lost their trailing slashes in `NewService`.
pub record Service : Type 0 where
  -- whether the bucket exists and is the user's, and whether it is public
  pub check_bucket : ℕ → ℕ → Action (Bool × Bool)
  pub default_quota : ℤ
  pub get_user_quota : ℕ → Action ℤ
  -- `nil` when no limit is configured
  pub get_user_file_size_limit : Option (ℕ → Action ℕ)
  pub is_platform_locked : Action Bool
  pub app_url : String
  pub cdn_url : String
  -- strings.TrimSpace
  pub trim_space : String → String
  -- the database's case-insensitive search
  pub contains : String → String → Bool

unfoldable pub public_file_url : Service → ℕ → String → Action String
public_file_url s file_id object_key =
    if not (s.cdn_url =s= "") && not (object_key =s= "")
    then pure (s.cdn_url +s ("/" +s object_key))
    else (do id ← uuid_text file_id; pure (s.app_url +s ("/api/v1/public/files/" +s id)))

-- `locked, err := ...; err == nil && locked`
abbrev locked_uploads : Result Bool → Bool
locked_uploads (ok b) = b
locked_uploads (err e) = false

abbrev pub effective_quota : Service → ℤ → ℤ
effective_quota s (pos n) = pos n
effective_quota s (negsuc n) = s.default_quota

abbrev pub is_unlimited : ℤ → Bool
is_unlimited (pos n) = n == 0
is_unlimited (negsuc n) = false

unfoldable pub check_usage : ℤ → ℕ → ℕ → Action (Unit {0})
unfolding total_storage_bytes_by_user
check_usage quota user_id incoming_bytes = if is_unlimited quota then pure tt else (do
  used ← total_storage_bytes_by_user user_id
  raise_if (gtb_ℤ (add_int64 used incoming_bytes) quota)
      (bad_request "quota de stockage dépassé — passez à un plan supérieur pour continuer"))

unfoldable pub check_quota : Service → ℕ → ℕ → Action (Unit {0})
check_quota s user_id incoming_bytes = do
  locked ← attempt s.is_platform_locked
  raise_if (locked_uploads locked)
      (bad_request "les uploads sont temporairement désactivés — contactez le support")
  quota ← s.get_user_quota user_id
  check_usage (effective_quota s quota) user_id incoming_bytes

abbrev within_limit : ℕ → Result ℕ → Action (Unit {0})
within_limit size (ok limit) =
    if limit == 0
    then pure tt
    else raise_if (ltb limit size) (bad_request "fichier trop volumineux pour votre plan")
within_limit size (err e) = pure tt

unfoldable pub check_file_size : Service → ℕ → ℕ → Action (Unit {0})
check_file_size s user_id size = elim s.get_user_file_size_limit [
  | none ↦ pure tt
  | some limit_of ↦ (do limit ← attempt (limit_of user_id); within_limit size limit)
]
