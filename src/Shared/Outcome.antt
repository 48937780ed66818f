-- ===== src/Shared/Outcome.antt =====
-- What a Go function returns beside its value: an API error (pkg/apierr/errors.go), or an error of
-- the database or of a service, which the handlers answer with a 500.
use Prim.Native.Nat.{ℕ}
use Prim.Native.String.{String}

pub data Error : Type 0 where
  -- pkg/apierr/errors.go: `New(code, msg)`
  api : ℕ → String → Error
  infra : Error

abbrev pub unauthorized : Error
unauthorized = api 401 "unauthorized"

abbrev pub forbidden : Error
forbidden = api 403 "forbidden"

abbrev pub not_found : Error
not_found = api 404 "not found"

abbrev too_many_requests : Error
too_many_requests = api 429 "too many requests — slow down"

abbrev pub bad_request : String → Error
bad_request msg = api 400 msg

abbrev pub conflict : String → Error
conflict msg = api 409 msg

pub data Result {ℓ} (A : Type ℓ) : Type ℓ where
  ok : A → Result A
  err : Error → Result A

-- The value of a call that returns satisfies `P`.
abbrev pub Yields {ℓ κ} : {A : Type ℓ} → (A → Type κ) → Result A → Type κ
Yields P (ok a) = P a
Yields P (err e) = Unit
