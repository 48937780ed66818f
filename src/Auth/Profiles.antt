-- ===== src/Auth/Profiles.antt =====
-- internal/auth/service.go: a user's profile, and the change of the e-mail by a code.
use Prim.Native.String.{len}
use nexium_storage_back.Shared.{
  ℕ, not, Bool, true, false, String, Option, none, some, ◌=s=◌, ltb, if◌then◌else◌, pos,
  bad_request, conflict, not_found,
}
use nexium_storage_back.World.{User, Action, pure, ◌>>=◌, ◌>>◌, raise_if}
use nexium_storage_back.Server.{get_user_by_id}
use nexium_storage_back.Auth.Text.{has_code}
use nexium_storage_back.Auth.Model.{Service, UpdateProfileRequest, Profile, apply_effective_quota}
use nexium_storage_back.Auth.Passwords.{hash_password, verify_password}
use nexium_storage_back.Auth.Store.{
  get_user_by_email, update_user, set_pending_email, clear_pending_email, mark_code_used,
}
use nexium_storage_back.Auth.Tokens.{required, send_code, check_code}
use nexium_storage_back.Auth.Signing.{normalised}

unfoldable pub me : Service → ℕ → Action Profile
me s user_id = do
  row ← get_user_by_id user_id
  user ← required not_found row
  pure (apply_effective_quota s user)

abbrev name_or : String → String → String
name_or name old = if name =s= "" then old else name

unfoldable pub changed_password : Service → UpdateProfileRequest → User → Action String
changed_password s req user = do
  raise_if (req.current_password =s= "")
      (bad_request "current_password is required to set a new password")
  raise_if (not (verify_password s req.current_password user.password_hash))
      (bad_request "current password is incorrect")
  raise_if (ltb (len req.new_password) 8) (bad_request "new password must be at least 8 characters")
  hash_password s req.new_password

-- `QuotaBytes` keeps its zero value.
unfoldable pub update_profile : Service → ℕ → UpdateProfileRequest → Action Profile
update_profile s user_id req = do
  row ← get_user_by_id user_id
  user ← required not_found row
  let name = name_or (s.trim_space req.name) user.name
  hash ← if req.new_password =s= "" then pure user.password_hash else changed_password s req user
  update_user user_id name user.email hash
  pure (record { user = record user { name = name }; quota_bytes = pos 0 })

abbrev pub is_some {ℓ} : {A : Type ℓ} → Option A → Bool
is_some none = false
is_some (some a) = true

unfoldable pub request_for : Service → ℕ → String → User → Action (Unit {0})
request_for s user_id new_email user = do
  raise_if (not (has_code 64 new_email)) (bad_request "invalid email")
  raise_if (new_email =s= user.email) (bad_request "this is already your current email")
  existing ← get_user_by_email new_email
  raise_if (is_some existing) (conflict "email already in use")
  set_pending_email user_id new_email
  send_code s user_id new_email "change_email" s.change_email_tpl

unfoldable pub request_email_change : Service → ℕ → String → Action (Unit {0})
request_email_change s user_id email = do
  row ← get_user_by_id user_id
  user ← required not_found row
  request_for s user_id (normalised s email) user

-- `COALESCE(pending_email, '')`
abbrev pub pending_of : User → String
pending_of u = elim u.pending_email as (λ _. String) [ none ↦ "" | some e ↦ e ]

unfoldable pub confirm_email_change : Service → ℕ → String → Action Profile
confirm_email_change s user_id code = do
  row ← get_user_by_id user_id
  user ← required not_found row
  raise_if (pending_of user =s= "") (bad_request "no pending email change")
  found ← check_code user_id "change_email" code
  mark_code_used found.id
  update_user user_id user.name (pending_of user) user.password_hash
  clear_pending_email user_id
  pure (apply_effective_quota s (record user { email = pending_of user; pending_email = none }))

unfoldable pub cancel_email_change : ℕ → Action (Unit {0})
cancel_email_change user_id = clear_pending_email user_id
