-- ===== src/Auth/Steps.antt =====
-- The steps that the operations of internal/auth/service.go share: they read, or they fail by no API
-- error.
use nexium_storage_back.Shared.{ℕ, refl, String, Option, none, some, Error, infra}
use nexium_storage_back.World.{User}
use nexium_storage_back.World.Refusals.{Reads, IsFirm, reading, firm}
use nexium_storage_back.Mailer.{Mailer, post, send}
use nexium_storage_back.Auth.{
  EmailTpl, Service, check_code, create_verification_code, generate_code, generate_token,
  get_latest_code, hash_password, issue_token_pair, required, save_refresh_token, send_code,
}

pub required-Reads {ℓ} : {A : Type ℓ} (e : Error) (o : Option A) → Reads (required e o)
required-Reads e none x w = refl
required-Reads e (some a) x w = refl

required-IsFirm {ℓ} : {A : Type ℓ} (o : Option A) → IsFirm (required infra o)
required-IsFirm none x w = refl
required-IsFirm (some a) x w = refl

pub hash_password-Reads : (s : Service) (password : String) → Reads (hash_password s password)
unfolding hash_password
hash_password-Reads s password = search reading

pub hash_password-IsFirm : (s : Service) (password : String) → IsFirm (hash_password s password)
unfolding hash_password
hash_password-IsFirm s password = search firm

pub check_code-Reads : (id : ℕ) (purpose code : String) → Reads (check_code id purpose code)
unfolding check_code get_latest_code
check_code-Reads id purpose code = search (reading, required-Reads) depth 12

pub issue_token_pair-IsFirm : (s : Service) (u : User) → IsFirm (issue_token_pair s u)
unfolding issue_token_pair generate_token save_refresh_token
issue_token_pair-IsFirm s u = search (firm, required-IsFirm) depth 14

send-IsFirm : (m : Mailer) (email subject html : String) → IsFirm (send m email subject html)
unfolding send post
send-IsFirm m email subject html = search firm

generate_code-IsFirm : IsFirm generate_code
unfolding generate_code
generate_code-IsFirm = search firm

create_verification_code-IsFirm :
    (id : ℕ) (hash purpose : String) (t : ℕ) → IsFirm (create_verification_code id hash purpose t)
unfolding create_verification_code
create_verification_code-IsFirm id hash purpose t = search firm

pub send_code-IsFirm :
    (s : Service) (id : ℕ) (email purpose : String) (tpl : EmailTpl)
    → IsFirm (send_code s id email purpose tpl)
unfolding send_code
send_code-IsFirm s id email purpose tpl =
    search (firm, generate_code-IsFirm, create_verification_code-IsFirm, send-IsFirm) depth 12
