-- ===== src/Receipts/Reading.antt =====
-- The texts of a receipt, as a PDF reader reads them.
use mathlib.Core.List.{append_assoc}
use nexium_storage_back.Shared.{
  ℕ, zero, suc, ◌+◌, ◌-◌, ◌≡◌, refl, Bool, true, false, not, ◌&&◌, ◌||◌, Option, none, some, List,
  [], ◌∷◌, ◌++◌, ◌==◌, length, map, arith, if◌then◌else◌, Option-cases, Bool-cases, inl, inr, ◌∙◌,
  ap,
}
use nexium_storage_back.Receipts.Texts.{Bytes}
use nexium_storage_back.Receipts.Escapes.{
  Replacement, after_prefix, match_at, replace_from, escapes, letter, letters, pdf_str,
}

abbrev keep : ℕ → Option (Bytes × Bytes) → Option (Bytes × Bytes)
keep c none = none
keep c (some e) = some (c ∷ e.0, e.1)

-- A backslash or a parenthesis.
abbrev is_sign : ℕ → Bool
is_sign c = c == 92 || (c == 40 || c == 41)

-- How a reader reads a string after its opening parenthesis (ISO 32000-1, 7.3.4.2), and what
-- follows it: a backslash takes the next sign as it is, parentheses are balanced, and the one that
-- is left over ends the string. The other escapes are not read.
unfoldable pub read_string : ℕ → Bool → Bytes → Option (Bytes × Bytes)
read_string depth escaped [] = none
read_string depth true (c ∷ s) =
    let rest = read_string depth false s in if is_sign c then keep c rest else none
read_string zero false (c ∷ s) =
    let escape = read_string zero true s in
    let deeper = read_string 1 false s in
    let rest = read_string zero false s in
    if c == 92
    then escape
    else if c == 40
    then keep c deeper
    else if c == 41
    then some ([], s)
    else keep c rest
read_string (suc depth) false (c ∷ s) =
    let escape = read_string (suc depth) true s in
    let deeper = read_string (suc (suc depth)) false s in
    let higher = read_string depth false s in
    let rest = read_string (suc depth) false s in
    if c == 92
    then escape
    else if c == 40
    then keep c deeper
    else if c == 41
    then keep c higher
    else keep c rest

abbrev is_one_of : ℕ → Bytes → Bool
is_one_of c [] = false
is_one_of c (d ∷ ds) = c == d || is_one_of c ds

-- The code points of the letters of French, with their capitals but for Ë, Ï, Ö, Ü and Ä: those of
-- Latin-1, which are also their codes in WinAnsi.
abbrev is_french : ℕ → Bool
is_french c =
    is_one_of c
      (224 ∷ 226 ∷ 228 ∷ 231 ∷ 232 ∷ 233 ∷ 234 ∷ 235 ∷ 238 ∷ 239 ∷ 244 ∷ 246 ∷ 249 ∷ 251 ∷ 252 ∷ [])
    || is_one_of c (192 ∷ 194 ∷ 199 ∷ 200 ∷ 201 ∷ 202 ∷ 206 ∷ 212 ∷ 217 ∷ 219 ∷ [])

-- The straight quote for U+2000 + `n` - 128: ‘ and ’, “ and ”.
abbrev quote_at : ℕ → Option (ℕ × ℕ)
quote_at n =
    if n == 152 || n == 153
    then some (39, 2)
    else if n == 156 || n == 157
    then some (34, 2)
    else none

-- The character of a font that a text in UTF-8 begins by, and how many bytes follow its first one. Two
-- bytes 195 and `n` are the code point `n` + 64.
unfoldable pub char_at : Bytes → Option (ℕ × ℕ)
char_at [] = none
char_at (c ∷ []) = none
char_at (c ∷ (d ∷ [])) = if c == 195 && is_french (d + 64) then some (d + 64, 1) else none
char_at (c ∷ (d ∷ (e ∷ s))) =
    if c == 195 && is_french (d + 64)
    then some (d + 64, 1)
    else if c == 226 && d == 128
    then quote_at e
    else none

-- The text in the encoding of the fonts, after `skip` bytes of a character that is read; every other
-- byte stands for itself.
unfoldable pub win_ansi : ℕ → Bytes → Bytes
win_ansi skip [] = []
win_ansi (suc skip) (c ∷ s) = win_ansi skip s
win_ansi zero (c ∷ s) = elim (char_at (c ∷ s)) [
  | none ↦ c ∷ win_ansi 0 s
  | some (b, n) ↦ b ∷ win_ansi n s
]

abbrev char_of : Option Replacement → Option (ℕ × ℕ)
char_of none = none
char_of (some (old, [])) = none
char_of (some (old, b ∷ bs)) = some (b, length old - 1)

-- The second bytes of the letters of the code, in its order.
abbrev accents : Bytes
accents =
    169 ∷ 168 ∷ 170 ∷ 171 ∷ 160 ∷ 162 ∷ 164 ∷ 174 ∷ 175 ∷ 180 ∷ 182 ∷ 185 ∷ 187 ∷ 188 ∷ 167 ∷ 137
    ∷ 136 ∷ 138 ∷ 128 ∷ 130 ∷ 142 ∷ 148 ∷ 153 ∷ 155 ∷ 135 ∷ []

abbrev quotes : List Replacement
quotes =
    (226 ∷ 128 ∷ 153 ∷ [], 39 ∷ [])
    ∷ (226 ∷ 128 ∷ 152 ∷ [], 39 ∷ [])
    ∷ (226 ∷ 128 ∷ 156 ∷ [], 34 ∷ [])
    ∷ (226 ∷ 128 ∷ 157 ∷ [], 34 ∷ [])
    ∷ []

letters-split : letters ≡ map letter accents ++ quotes
unfolding letters
letters-split = refl

accents-match :
    (ns : Bytes) (rs : List Replacement) (c d : ℕ) (s : Bytes)
    → char_of (match_at (map letter ns ++ rs) (c ∷ (d ∷ s))) ≡ (
        if c == 195 && is_one_of d ns
        then some (d + 64, 1)
        else char_of (match_at rs (c ∷ (d ∷ s))))
unfolding match_at after_prefix
accents-match [] rs c d s = ground arith
accents-match (n ∷ ns) rs c d s = ground (arith, accents-match ns rs c d s)

accents-french : (d : ℕ) → is_one_of d accents ≡ is_french (d + 64)
accents-french d = ground arith

quotes-match :
    (c d e : ℕ) (s : Bytes)
    → char_of (match_at quotes (c ∷ (d ∷ (e ∷ s))))
      ≡ (if c == 226 && d == 128 then quote_at e else none)
unfolding match_at after_prefix
quotes-match c d e s = ground arith

accents-one :
    (ns : Bytes) (rs : List Replacement) (c : ℕ)
    → match_at (map letter ns ++ rs) (c ∷ []) ≡ match_at rs (c ∷ [])
unfolding match_at after_prefix
accents-one [] rs c = refl
accents-one (n ∷ ns) rs c = ground (arith, accents-one ns rs c)

accents-empty :
    (ns : Bytes) (rs : List Replacement) → match_at (map letter ns ++ rs) [] ≡ match_at rs []
unfolding match_at after_prefix
accents-empty [] rs = refl
accents-empty (n ∷ ns) rs = ground (arith, accents-empty ns rs)

quotes-short :
    (c d : ℕ)
    → (match_at quotes [] ≡ none)
      × (match_at quotes (c ∷ []) ≡ none)
      × (match_at quotes (c ∷ (d ∷ [])) ≡ none)
unfolding match_at after_prefix
quotes-short c d = ground arith

split_match :
    (s : Bytes) → char_of (match_at letters s) ≡ char_of (match_at (map letter accents ++ quotes) s)
split_match s = ap (λ rs. char_of (match_at rs s)) letters-split

char_of-letters : (s : Bytes) → char_of (match_at letters s) ≡ char_at s
unfolding char_at
char_of-letters [] =
    split_match [] ∙ ap char_of (accents-empty accents quotes ∙ (quotes-short 0 0).0)
char_of-letters (c ∷ []) =
    split_match (c ∷ []) ∙ ap char_of (accents-one accents quotes c ∙ (quotes-short c 0).1)
char_of-letters (c ∷ (d ∷ [])) =
    split_match (c ∷ (d ∷ []))
    ∙ accents-match accents quotes c d []
    ∙ rw (accents-french d, (quotes-short c d).2) refl
char_of-letters (c ∷ (d ∷ (e ∷ s))) =
    split_match (c ∷ (d ∷ (e ∷ s)))
    ∙ accents-match accents quotes c d (e ∷ s)
    ∙ rw (accents-french d, quotes-match c d e s) refl

abbrev is_plain : Bytes → Bool
is_plain (b ∷ []) = not (is_sign b)
is_plain [] = false
is_plain (b ∷ (c ∷ bs)) = false

all_plain : List Replacement → Bool
all_plain [] = true
all_plain (r ∷ rs) = is_plain r.1 && all_plain rs

abbrev begins_by : ℕ → Bytes → Bool
begins_by c [] = true
begins_by c (d ∷ s) = d == c

-- None of the old texts begins by the byte.
none_by : ℕ → List Replacement → Bool
none_by c [] = true
none_by c (r ∷ rs) = not (begins_by c r.0) && none_by c rs

match_at-none :
    (c : ℕ) (rs : List Replacement) (s : Bytes) → none_by c rs ≡ true → match_at rs (c ∷ s) ≡ none
unfolding match_at none_by after_prefix
match_at-none c [] s h = refl
match_at-none c (([], new) ∷ rs) s h = ground arith
match_at-none c ((d ∷ old, new) ∷ rs) s h = ground (arith, match_at-none c rs s)

match_at_plain :
    (rs : List Replacement) (s : Bytes) {r : Replacement}
    → all_plain rs ≡ true
    → match_at rs s ≡ some r
    → is_plain r.1 ≡ true
unfolding match_at all_plain
match_at_plain [] s p e = cc
match_at_plain ((old, new) ∷ rs) s {r = r} p e = ground (arith, match_at_plain rs s {r = r})

letters_plain : all_plain letters ≡ true
unfolding all_plain letters
letters_plain = refl

letters-none : (c : ℕ) (s : Bytes) → is_sign c ≡ true → match_at letters (c ∷ s) ≡ none
unfolding none_by letters
letters-none c s h = match_at-none c letters s (ground arith)

-- A byte that is no sign is matched by the letters alone.
match_at-letters :
    (c : ℕ) (s : Bytes)
    → is_sign c ≡ false
    → match_at (escapes ++ letters) (c ∷ s) ≡ match_at letters (c ∷ s)
unfolding match_at escapes after_prefix
match_at-letters c s h = ground arith

match_at-sign :
    (c : ℕ) (s : Bytes)
    → is_sign c ≡ true
    → match_at (escapes ++ letters) (c ∷ s) ≡ some (c ∷ [], 92 ∷ c ∷ [])
unfolding match_at escapes after_prefix
match_at-sign c s h = ground arith

read_string-sign :
    (c : ℕ) (t : Bytes)
    → is_sign c ≡ true
    → read_string 0 false (92 ∷ c ∷ t) ≡ keep c (read_string 0 false t)
unfolding read_string
read_string-sign c t h = ground arith

read_string-other :
    (c : ℕ) (t : Bytes)
    → is_sign c ≡ false
    → read_string 0 false (c ∷ t) ≡ keep c (read_string 0 false t)
unfolding read_string
read_string-other c t h = ground arith

read_string-plain :
    (new out rest : Bytes) (t : Bytes)
    → is_plain new ≡ true
    → read_string 0 false t ≡ some (out, rest)
    → read_string 0 false (new ++ t) ≡ some (new ++ out, rest)
read_string-plain [] out rest t h e = cc
read_string-plain (b ∷ []) out rest t h e = rw (read_string-other b t (ground arith), e) refl
read_string-plain (b ∷ (c ∷ bs)) out rest t h e = cc

replace_from-none :
    (rs : List Replacement) (c : ℕ) (s : Bytes)
    → match_at rs (c ∷ s) ≡ none
    → replace_from rs 0 (c ∷ s) ≡ c ∷ replace_from rs 0 s
unfolding replace_from
replace_from-none rs c s e = ground arith

replace_from-some :
    (rs : List Replacement) (c : ℕ) (s : Bytes) {r : Replacement}
    → match_at rs (c ∷ s) ≡ some r
    → replace_from rs 0 (c ∷ s) ≡ r.1 ++ replace_from rs (length r.0 - 1) s
unfolding replace_from
replace_from-some rs c s e = ground arith

read_string-end : (rest : Bytes) → read_string 0 false (41 ∷ rest) ≡ some ([], rest)
unfolding read_string
read_string-end rest = refl

read_string-replace :
    (skip : ℕ) (s rest : Bytes)
    → read_string 0 false (replace_from (escapes ++ letters) skip s ++ (41 ∷ rest))
      ≡ some (replace_from letters skip s, rest)
unfolding replace_from
read_string-replace zero [] rest = read_string-end rest
read_string-replace (suc skip) [] rest = read_string-end rest
read_string-replace (suc skip) (c ∷ s) rest = read_string-replace skip s rest
read_string-replace zero (c ∷ s) rest = elim (Bool-cases (is_sign c)) [
  | inl sign ↦ rw (
    replace_from-some _ c s (match_at-sign c s sign),
    replace_from-none _ c s (letters-none c s sign),
    read_string-sign c (replace_from (escapes ++ letters) 0 s ++ (41 ∷ rest)) sign,
    read_string-replace zero s rest,
  )
  | inr other ↦ elim (Option-cases (match_at letters (c ∷ s))) [
    | inl e ↦ rw (
      replace_from-none _ c s (match_at-letters c s other ∙ e),
      replace_from-none _ c s e,
      read_string-other c (replace_from (escapes ++ letters) 0 s ++ (41 ∷ rest)) other,
      read_string-replace zero s rest,
    )
    | inr (r, e) ↦
        rw
          (
            replace_from-some _ c s (match_at-letters c s other ∙ e),
            replace_from-some _ c s e,
            append_assoc,
          )
          (read_string-plain r.1 _ rest _ (match_at_plain letters (c ∷ s) letters_plain e)
            (read_string-replace (length r.0 - 1) s rest))
  ]
]

-- The replacements of the letters are the encoding.
letters-win_ansi : (skip : ℕ) (s : Bytes) → replace_from letters skip s ≡ win_ansi skip s
unfolding replace_from win_ansi
letters-win_ansi skip [] = ground arith
letters-win_ansi (suc skip) (c ∷ s) = letters-win_ansi skip s
letters-win_ansi zero (c ∷ s) = elim (Option-cases (match_at letters (c ∷ s))) [
  | inl e ↦ ground (arith, char_of-letters (c ∷ s), letters-win_ansi 0 s)
  | inr (r, e) ↦ ground (
    arith,
    char_of-letters (c ∷ s),
    match_at_plain letters (c ∷ s) {r = r} letters_plain e,
    letters-win_ansi (length r.0 - 1) s,
  )
]

-- A reader gets the text of a line back, in the encoding of the fonts, and the string ends where it is
-- meant to: no name, whatever its bytes, ends it early or adds operators. The encoding is that of
-- `win_ansi`: the code of WinAnsi for the letters that it lists, a straight quote for a curly one, and
-- every other byte, also of a letter that is not listed, as it stands.
pub read_string-pdf_str :
    (s rest : Bytes) → read_string 0 false (pdf_str s ++ (41 ∷ rest)) ≡ some (win_ansi 0 s, rest)
unfolding pdf_str
read_string-pdf_str s rest =
    read_string-replace 0 s rest ∙ ap (λ t. some (t, rest)) (letters-win_ansi 0 s)
