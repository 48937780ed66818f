-- ===== src/Receipts/Escapes.antt =====
-- internal/billing/email.go: `pdfStr`, a text in the encoding of the fonts with the signs of PDF
-- escaped.
use nexium_storage_back.Shared.{
  ℕ, zero, suc, ◌+◌, ◌-◌, ◌≡◌, refl, Option, none, some, List, [], ◌∷◌, ◌++◌, ◌==◌, length,
  if◌then◌else◌,
}
use nexium_storage_back.Receipts.Texts.{Bytes, codes}

-- What is replaced, and by what.
abbrev pub Replacement : Type 0
Replacement = Bytes × Bytes

-- What follows the prefix.
unfoldable pub after_prefix : Bytes → Bytes → Option Bytes
after_prefix [] s = some s
after_prefix (c ∷ cs) [] = none
after_prefix (c ∷ cs) (d ∷ s) = let rest = after_prefix cs s in if c == d then rest else none

-- The first of the replacements whose old text is here.
unfoldable pub match_at : List Replacement → Bytes → Option Replacement
match_at [] s = none
match_at ((old, new) ∷ rs) s = elim (after_prefix old s) [
  | none ↦ match_at rs s
  | some rest ↦ some (old, new)
]

-- `strings.NewReplacer(...).Replace`, after `skip` bytes that are replaced already.
unfoldable pub replace_from : List Replacement → ℕ → Bytes → Bytes
replace_from rs skip [] = []
replace_from rs (suc skip) (c ∷ s) = replace_from rs skip s
replace_from rs zero (c ∷ s) = elim (match_at rs (c ∷ s)) [
  | none ↦ c ∷ replace_from rs zero s
  | some (old, new) ↦ new ++ replace_from rs (length old - 1) s
]

-- A backslash and the two parentheses.
unfoldable pub escapes : List Replacement
escapes = (92 ∷ [], 92 ∷ 92 ∷ []) ∷ (40 ∷ [], 92 ∷ 40 ∷ []) ∷ (41 ∷ [], 92 ∷ 41 ∷ []) ∷ []

-- A letter whose second byte in UTF-8 is `n`.
abbrev pub letter : ℕ → Replacement
letter n = (195 ∷ n ∷ [], (n + 64) ∷ [])

-- The accented letters and the quotes.
unfoldable pub letters : List Replacement
letters =
    letter 169
    ∷ letter 168
    ∷ letter 170
    ∷ letter 171
    ∷ letter 160
    ∷ letter 162
    ∷ letter 164
    ∷ letter 174
    ∷ letter 175
    ∷ letter 180
    ∷ letter 182
    ∷ letter 185
    ∷ letter 187
    ∷ letter 188
    ∷ letter 167
    ∷ letter 137
    ∷ letter 136
    ∷ letter 138
    ∷ letter 128
    ∷ letter 130
    ∷ letter 142
    ∷ letter 148
    ∷ letter 153
    ∷ letter 155
    ∷ letter 135
    ∷ (226 ∷ 128 ∷ 153 ∷ [], 39 ∷ [])
    ∷ (226 ∷ 128 ∷ 152 ∷ [], 39 ∷ [])
    ∷ (226 ∷ 128 ∷ 156 ∷ [], 34 ∷ [])
    ∷ (226 ∷ 128 ∷ 157 ∷ [], 34 ∷ [])
    ∷ []

unfoldable pub pdf_str : Bytes → Bytes
pdf_str s = replace_from (escapes ++ letters) 0 s

pdf_str_example : pdf_str (195 ∷ 169 ∷ codes "t(") ≡ 233 ∷ codes "t\\("
unfolding pdf_str replace_from match_at after_prefix escapes letters
pdf_str_example = refl
