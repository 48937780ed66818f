-- ===== src/Receipts/Texts.antt =====
-- What internal/billing/email.go uses of fmt, and its formats of sums, dates and sizes. A text is
-- the list of its bytes.
use Prim.Native.Char.{code}
use Prim.Native.String.{[] as []ₛ, ◌∷◌ as ◌∷ₛ◌}
use nexium_storage_back.Shared.{
  ℕ, zero, suc, ◌+◌, ◌-◌, ◌/◌, ◌%◌, ◌≡◌, refl, String, List, [], ◌∷◌, ◌++◌, ◌==◌, ltb, leb, length,
  take, drop, if◌then◌else◌,
}
use nexium_storage_back.Calendar.{civil_date}

abbrev pub Bytes : Type 0
Bytes = List ℕ

-- The bytes of an ASCII text.
abbrev pub codes : String → Bytes
codes []ₛ = []
codes (c ∷ₛ s) = code c ∷ codes s

abbrev pub repeat : ℕ → ℕ → Bytes
repeat zero c = []
repeat (suc n) c = c ∷ repeat n c

-- The digits of `n` before `out`, in `fuel` divisions at most: `n` of them are enough.
unfoldable pub digits : ℕ → ℕ → Bytes → Bytes
digits zero n out = out
digits (suc fuel) n out =
    let rest = digits fuel (n / 10) ((48 + n % 10) ∷ out) in if n == 0 then out else rest

-- `%d`
unfoldable pub decimal : ℕ → Bytes
decimal n = if n == 0 then 48 ∷ [] else digits n n []

-- `%02d`, `%010d`: zeros up to the width.
unfoldable pub padded : ℕ → ℕ → Bytes
padded width n = let s = decimal n in repeat (width - length s) 48 ++ s

-- A space before the last three digits.
unfoldable pub format_xof : ℕ → Bytes
format_xof n =
    let s = decimal n in
    let k = length s - 3 in if ltb 3 (length s) then take k s ++ (32 ∷ drop k s) else s

unfoldable pub format_storage : ℕ → Bytes
format_storage b =
    if leb 1_099_511_627_776 b
    then decimal (b / 1_099_511_627_776) ++ codes " TB"
    else if leb 1_073_741_824 b
    then decimal (b / 1_073_741_824) ++ codes " GB"
    else decimal (b / 1_048_576) ++ codes " MB"

abbrev month_names : List Bytes
month_names =
    codes "Jan"
    ∷ codes "Fev"
    ∷ codes "Mar"
    ∷ codes "Avr"
    ∷ codes "Mai"
    ∷ codes "Jun"
    ∷ codes "Jul"
    ∷ codes "Aou"
    ∷ codes "Sep"
    ∷ codes "Oct"
    ∷ codes "Nov"
    ∷ codes "Dec"
    ∷ []

abbrev nth : List Bytes → ℕ → Bytes
nth [] i = []
nth (b ∷ bs) zero = b
nth (b ∷ bs) (suc i) = nth bs i

-- The time is in UTC.
unfoldable pub format_date : ℕ → Bytes
format_date t =
    let d = civil_date t in
    padded 2 d.day ++ (32 ∷ (nth month_names (d.month - 1) ++ (32 ∷ decimal d.year)))

format_xof_small : format_xof 900 ≡ codes "900"
unfolding format_xof decimal digits
format_xof_small = refl

format_xof_large : format_xof 12500 ≡ codes "12 500"
unfolding format_xof decimal digits
format_xof_large = refl

-- Only one space is written.
format_xof_million : format_xof 1250000 ≡ codes "1250 000"
unfolding format_xof decimal digits
format_xof_million = refl

format_date_example : format_date 1769860800 ≡ codes "31 Jan 2026"
unfolding format_date padded decimal digits civil_date
format_date_example = refl
