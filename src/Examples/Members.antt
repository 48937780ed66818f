-- ===== src/Examples/Members.antt =====
-- Two accounts with a session and a code, and the service of internal/auth/service.go.
use nexium_storage_back.Shared.{Bool, String, false, none, pos, some, true, ℕ, [], ◌∷◌}
use nexium_storage_back.World.{RefreshToken, User, VerificationCode, World}
use nexium_storage_back.Mailer.{Mailer}
use nexium_storage_back.Auth.{EmailTpl, Service, encode_password}
use nexium_storage_back.Examples.Fixtures.{db}

abbrev template : EmailTpl
template = record {
  subject_en = "Code";
  subject_fr = "Code";
  html_en = λ code. code;
  html_fr = λ code. code;
}

abbrev no_mail : Mailer
no_mail = record { api_key = ""; secret_key = ""; from_email = "a@x"; from_name = "A" }

abbrev pub service : Service
service = record {
  mailer = no_mail;
  storage_quota_gb = pos 1;
  jwt_secret = "secret";
  jwt_access_ttl = 900;
  jwt_refresh_ttl = 9000;
  verify_email_tpl = template;
  change_email_tpl = template;
  reset_password_tpl = template;
  locale = "en";
  trim_space = λ text. text;
  to_lower = λ text. text;
  id_key = λ password salt. 1 ∷ [];
  sign = λ secret sub iat exp. some "jwt";
}

abbrev member : ℕ → String → Bool → User
member id email is_verified = record {
  id = id;
  name = "U";
  email = email;
  pending_email = none;
  password_hash = encode_password (17 ∷ 171 ∷ []) (1 ∷ []);
  is_admin = true;
  is_super_admin = true;
  is_verified = is_verified;
  storage_quota_bytes = none;
  last_active_at = none;
  inactivity_warned_at = none;
}

abbrev pub ada : User
ada = member 1 "ada@x" true

abbrev pub bob : User
bob = member 2 "bob@x" false

abbrev token : RefreshToken
token = record { user_id = 1; token_hash = "old"; expires_at = 60000000 }

-- The code that resets the password of `ada`.
abbrev pub reset_code : VerificationCode
reset_code = record {
  id = 60;
  user_id = 1;
  code_hash = "123456";
  purpose = "reset_password";
  expires_at = 60000000;
  used_at = none;
  created_at = 49999999;
}

abbrev pub members : World
members = record {
  db = record db {
    users = ada ∷ bob ∷ [];
    refresh_tokens = token ∷ [];
    verification_codes = reset_code ∷ [];
  };
  log = [];
}
