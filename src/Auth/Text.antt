-- ===== src/Auth/Text.antt =====
-- What internal/auth/service.go uses of strings, of encoding/hex and of fmt.
use Prim.Native.Char.{Char, char, code}
use Prim.Native.String.{[] as []ₛ, ◌∷◌ as ◌∷ₛ◌}
use nexium_storage_back.Shared.{
  ℕ, zero, suc, ◌+◌, ◌-◌, ◌*◌, ◌/◌, ◌%◌, Bool, true, false, ◌&&◌, String, Option, none, some, List,
  [], ◌∷◌, ◌==◌, leb, if◌then◌else◌,
}

-- strings.Contains, for a text of the one character.
unfoldable pub has_code : ℕ → String → Bool
has_code n []ₛ = false
has_code n (c ∷ₛ s) = if code c == n then true else has_code n s

abbrev on_head : Char → List String → List String
on_head c [] = []
on_head c (s ∷ ss) = (c ∷ₛ s) ∷ ss

-- strings.Split, by the one character.
unfoldable pub split_on : ℕ → String → List String
split_on n []ₛ = []ₛ ∷ []
split_on n (c ∷ₛ s) = let rest = split_on n s in if code c == n then []ₛ ∷ rest else on_head c rest

-- The character at the index, and "f" past the end.
abbrev char_at : ℕ → String → Char
char_at n []ₛ = char 102 tt
char_at zero (c ∷ₛ s) = c
char_at (suc n) (c ∷ₛ s) = char_at n s

-- hex.EncodeToString
unfoldable pub hex_digit : ℕ → Char
hex_digit n = char_at n "0123456789abcdef"

unfoldable pub encode_hex : List ℕ → String
encode_hex [] = []ₛ
encode_hex (b ∷ bs) = hex_digit (b / 16) ∷ₛ (hex_digit (b % 16) ∷ₛ encode_hex bs)

-- A digit of either case.
unfoldable pub hex_value : ℕ → Option ℕ
hex_value c =
    if leb 48 c && leb c 57
    then some (c - 48)
    else if leb 97 c && leb c 102
    then some (c - 87)
    else if leb 65 c && leb c 70
    then some (c - 55)
    else none

abbrev joined : Option ℕ → Option ℕ → Option (List ℕ) → Option (List ℕ)
joined (some h) (some l) (some bs) = some ((16 * h + l) ∷ bs)
joined _ _ _ = none

-- hex.DecodeString: an odd length and a character that is no digit are errors.
unfoldable pub decode_hex : String → Option (List ℕ)
decode_hex []ₛ = some []
decode_hex (h ∷ₛ []ₛ) = none
decode_hex (h ∷ₛ (l ∷ₛ s)) =
    let rest = decode_hex s in joined (hex_value (code h)) (hex_value (code l)) rest

-- `%06d`, of a number below 1000000.
unfoldable pub six_digits : ℕ → String
six_digits n =
    hex_digit (n / 100000 % 10)
    ∷ₛ (hex_digit (n / 10000 % 10)
        ∷ₛ (hex_digit (n / 1000 % 10)
            ∷ₛ (hex_digit (n / 100 % 10)
                ∷ₛ (hex_digit (n / 10 % 10) ∷ₛ (hex_digit (n % 10) ∷ₛ []ₛ)))))
