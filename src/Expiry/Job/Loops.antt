-- ===== src/Expiry/Job/Loops.antt =====
-- internal/expiry/job.go: what the passes share.
use nexium_storage_back.Shared.{ℕ, Bool, true, false, Option, none, some, List, [], ◌∷◌, ltb}
use nexium_storage_back.World.{Action, pure, ignore, ◌>>◌}

abbrev pub day : ℕ
day = 86400

-- `for _, e := range entries`, where an error of the body continues with the next entry.
unfoldable pub for_each {ℓ} : {A : Type ℓ} → (A → Action (Unit {0})) → List A → Action (Unit {0})
for_each body [] = pure tt
for_each body (e ∷ es) = do ignore (body e); for_each body es

abbrev pub is_before : ℕ → Option ℕ → Bool
is_before t none = false
is_before t (some end) = ltb end t

abbrev pub is_null : Option ℕ → Bool
is_null none = true
is_null (some t) = false
