-- ===== src/Buckets/Names.antt =====
-- internal/buckets/service.go: `validBucketName`, ^[a-z0-9][a-z0-9\-]{1,61}[a-z0-9]$
use Prim.Native.Char.{code}
use Prim.Native.String.{[], ◌∷◌}
use nexium_storage_back.Shared.{
  ℕ, zero, suc, Bool, false, ◌&&◌, ◌||◌, String, List, [] as []ₗ, ◌∷◌ as ◌∷ₗ◌, ◌==◌, leb,
}

unfoldable pub codes : String → List ℕ
codes [] = []ₗ
codes (c ∷ s) = code c ∷ₗ codes s

-- [a-z0-9]
unfoldable pub is_lower_alnum : ℕ → Bool
is_lower_alnum c = (leb 97 c && leb c 122) || (leb 48 c && leb c 57)

-- [a-z0-9\-]
unfoldable pub is_name_char : ℕ → Bool
is_name_char c = is_lower_alnum c || c == 45

-- [a-z0-9\-]{0,n}[a-z0-9]$: the class once more, or the last character.
unfoldable pub match_tail : ℕ → List ℕ → Bool
match_tail n []ₗ = false
match_tail zero (c ∷ₗ []ₗ) = is_lower_alnum c
match_tail zero (c ∷ₗ (d ∷ₗ cs)) = false
match_tail (suc n) (c ∷ₗ []ₗ) = is_lower_alnum c
match_tail (suc n) (c ∷ₗ (d ∷ₗ cs)) = is_name_char c && match_tail n (d ∷ₗ cs)

-- [a-z0-9\-]{1,61}[a-z0-9]$
unfoldable pub match_body : List ℕ → Bool
match_body []ₗ = false
match_body (c ∷ₗ cs) = is_name_char c && match_tail 60 cs

unfoldable pub matches_name : List ℕ → Bool
matches_name []ₗ = false
matches_name (c ∷ₗ cs) = is_lower_alnum c && match_body cs

unfoldable pub valid_bucket_name : String → Bool
valid_bucket_name s = matches_name (codes s)
