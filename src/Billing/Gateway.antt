-- ===== src/Billing/Gateway.antt =====
-- The payment gateways as billing sees them: statuses, channel codes, currencies
-- (pkg/saspay/client.go, and the helpers at the end of internal/billing/service.go).
use nexium_storage_back.Shared.{Bool, ◌||◌, String, ◌=s=◌, if◌then◌else◌, List, [], ◌∷◌}

-- `NormaliseStatus`, of the status in upper case.
unfoldable pub normalise_upper : String → String
normalise_upper s =
    if s =s= "SUCCESS"
    then "completed"
    else if s =s= "FAILED" || s =s= "CANCELLED"
    then "failed"
    else if s =s= "EXPIRED"
    then "expired"
    else if s =s= "PROCESSING"
    then "processing"
    else "pending"

unfoldable pub is_terminal : String → Bool
is_terminal status = status =s= "completed" || (status =s= "failed" || status =s= "expired")

unfoldable adullam_channel : String → String
adullam_channel slug =
    if slug =s= "mtn_ci"
    then "mtnCI"
    else if slug =s= "wave_ci"
    then "waveCI"
    else if slug =s= "moov_ci"
    then "moovCI"
    else if slug =s= "orange_ci"
    then "orangeCI"
    else slug

is_cemac : String → Bool
is_cemac code =
    code =s= "CM"
    || (code =s= "GA" || (code =s= "CG" || (code =s= "CF" || (code =s= "TD" || code =s= "GQ"))))

unfoldable currency_for_country : String → String
unfolding is_cemac
currency_for_country code = if is_cemac code then "XAF" else if code =s= "GN" then "GNF" else "XOF"

-- `splitName`, of the words of the name (`strings.Fields`); the rest is joined by spaces.
unfoldable split_words : (List String → String) → List String → String × String
split_words join [] = ("User", "User")
split_words join (w ∷ []) = (w, w)
split_words join (w ∷ v ∷ vs) = (w, join (v ∷ vs))
