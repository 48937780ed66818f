-- ===== src/Http/Responses.antt =====
-- pkg/response/json.go: the status of a response, and the message of an error.
use nexium_storage_back.Shared.{ℕ, String, Error, api, infra, Result, ok, err}

-- `OK`, `Created` and `NoContent`
abbrev ok_status : ℕ
ok_status = 200

abbrev created_status : ℕ
created_status = 201

abbrev no_content_status : ℕ
no_content_status = 204

-- `Error`: the code and the message of an API error; nothing of any other error.
unfoldable error_response : Error → ℕ × String
error_response (api code msg) = (code, msg)
error_response infra = (500, "internal server error")

-- The status that a handler answers, by the status for its value.
abbrev status_of_result {ℓ} : {A : Type ℓ} → ℕ → Result A → ℕ
status_of_result status (ok a) = status
status_of_result status (err e) = (error_response e).0
