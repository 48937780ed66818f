-- ===== src/Projects/Slugs.antt =====
-- internal/projects/service.go: `slugify`.
use Prim.Native.Char.{Char, char, code}
use Prim.Native.String.{[], ◌∷◌}
use nexium_storage_back.Shared.{Bool, true, false, ◌&&◌, ◌||◌, String, ◌==◌, if◌then◌else◌}

-- unicode.IsLetter or unicode.IsDigit, unicode.IsSpace, and strings.ToLower.
pub record Unicode : Type 0 where
  pub is_alnum : Char → Bool
  pub is_space : Char → Bool
  pub to_lower : String → String

abbrev dash : Char
dash = char 45 tt

abbrev pub is_dash : Char → Bool
is_dash c = code c == 45

-- A space, "-" and "_" become "-"; what else is no letter and no digit is left out.
unfoldable pub slug_of : Unicode → String → String
slug_of u [] = []
slug_of u (c ∷ s) =
    let rest = slug_of u s in
    if u.is_alnum c
    then c ∷ rest
    else if u.is_space c || (is_dash c || code c == 95)
    then dash ∷ rest
    else rest

-- strings.Trim by "-": on the left, then on the right.
unfoldable pub trim_left : String → String
trim_left [] = []
trim_left (c ∷ s) = let rest = trim_left s in if is_dash c then rest else c ∷ s

abbrev pub is_empty : String → Bool
is_empty [] = true
is_empty (c ∷ s) = false

unfoldable pub trim_right : String → String
trim_right [] = []
trim_right (c ∷ s) = let rest = trim_right s in if is_dash c && is_empty rest then [] else c ∷ rest

unfoldable pub slugify : Unicode → String → String
slugify u name = trim_right (trim_left (slug_of u (u.to_lower name)))
