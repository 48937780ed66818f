-- ===== src/Buckets/Naming.antt =====
-- What the names of internal/buckets/service.go look like.
use nexium_storage_back.Shared.{
  ℕ, zero, suc, ◌≡◌, refl, Bool, true, false, ◌&&◌, List, [], ◌∷◌, leb, length, arith,
}
use nexium_storage_back.Buckets.Names.{
  is_lower_alnum, is_name_char, match_tail, match_body, matches_name,
}

abbrev all_name_chars : List ℕ → Bool
all_name_chars [] = true
all_name_chars (c ∷ cs) = is_name_char c && all_name_chars cs

-- The last character is a letter or a digit; there is one.
abbrev ends_alnum : List ℕ → Bool
ends_alnum [] = false
ends_alnum (c ∷ []) = is_lower_alnum c
ends_alnum (c ∷ (d ∷ cs)) = ends_alnum (d ∷ cs)

abbrev starts_alnum : List ℕ → Bool
starts_alnum [] = false
starts_alnum (c ∷ cs) = is_lower_alnum c

-- The description: 3 to 63 characters of the class, the first and the last no hyphen.
abbrev pub is_described : List ℕ → Bool
is_described cs =
    (leb 3 (length cs) && leb (length cs) 63)
    && (all_name_chars cs && (starts_alnum cs && ends_alnum cs))

match_tail_lem :
    (n : ℕ) (cs : List ℕ)
    → match_tail n cs ≡ (leb (length cs) (suc n) && (all_name_chars cs && ends_alnum cs))
unfolding match_tail is_name_char
match_tail_lem n [] = ground arith
match_tail_lem zero (c ∷ []) = ground arith
match_tail_lem zero (c ∷ (d ∷ cs)) = ground arith
match_tail_lem (suc n) (c ∷ []) = ground arith
match_tail_lem (suc n) (c ∷ (d ∷ cs)) = ground (arith, match_tail_lem n (d ∷ cs))

-- A name matches the regular expression exactly if it is of 3 to 63 lowercase letters, digits and
-- hyphens, and neither begins nor ends with a hyphen.
pub matches_name-is_described : (cs : List ℕ) → matches_name cs ≡ is_described cs
unfolding matches_name match_body is_name_char
matches_name-is_described [] = refl
matches_name-is_described (c ∷ []) = ground arith
matches_name-is_described (c ∷ (d ∷ [])) = ground (arith, match_tail_lem 60 [])
matches_name-is_described (c ∷ (d ∷ (e ∷ cs))) = ground (arith, match_tail_lem 60 (e ∷ cs))
