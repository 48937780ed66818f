-- ===== src/Gateways/Adullam.antt =====
-- pkg/adullam/client.go: the payments of Adullam.
use nexium_storage_back.Shared.{ℕ, String, Option, none, some, leb, if◌then◌else◌}
use nexium_storage_back.Gateways.Answers.{Answer, Outcome, got, refused, unreadable, unreachable}

-- `Payment`, for what the service reads of it.
pub record AdullamPayment : Type 0 where
  pub id : String
  pub status : String
  pub fees : ℕ
  pub redirect_url : String
  pub failed_reason : String

-- `json.Unmarshal` into a payment, and the field `error` of a body, "" where it cannot be read.
pub record AdullamDecoder : Type 0 where
  pub payment : String → Option AdullamPayment
  pub error : String → String

abbrev adullam_or_error : Option AdullamPayment → Outcome AdullamPayment
adullam_or_error none = unreadable
adullam_or_error (some p) = got p

-- `CreatePayment` and `GetPayment`, which differ in the request only.
unfoldable adullam_outcome : AdullamDecoder → Option Answer → Outcome AdullamPayment
adullam_outcome d none = unreachable
adullam_outcome d (some a) =
    if leb 300 a.status
    then refused a.status (d.error a.body)
    else adullam_or_error (d.payment a.body)
