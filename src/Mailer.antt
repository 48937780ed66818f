-- ===== src/Mailer.antt =====
-- internal/mailer/mailer.go: an e-mail is a POST to the mail service, or nothing where no key is
-- configured.
use nexium_storage_back.Shared.{ℕ, List, String, ◌=s=◌, leb, if◌then◌else◌, infra}
use nexium_storage_back.World.{Event, Action, mail_html, mail_file, pure, ◌>>=◌, raise_if, ask}

pub record Mailer : Type 0 where
  pub api_key : String
  pub secret_key : String
  pub from_email : String
  pub from_name : String

-- The status that the service answers to the POST.
unfoldable pub post : Event → Action (Unit {0})
post e = do status ← ask (λ x l. x.http_status l) e; raise_if (leb 300 status) infra

unfoldable pub send : Mailer → String → String → String → Action (Unit {0})
send m to_email subject html_body =
    if m.api_key =s= "" then pure tt else post (mail_html subject html_body to_email)

unfoldable pub send_with_attachment :
    Mailer → String → String → String → String → String → List ℕ → Action (Unit {0})
send_with_attachment m to_email subject html_body filename content_type data_ =
    if m.api_key =s= ""
    then pure tt
    else post (mail_file to_email subject html_body filename content_type data_)
