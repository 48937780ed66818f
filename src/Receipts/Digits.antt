-- ===== src/Receipts/Digits.antt =====
-- The numbers of the receipt, read back from their digits.
use nexium_storage_back.Shared.{
  ℕ, zero, suc, ◌+◌, ◌-◌, ◌*◌, ◌/◌, ◌%◌, ◌^◌, ◌≤◌, ◌<◌, ◌≡◌, refl, [], ◌∷◌, ◌++◌, arith, length,
  length-append, ap, ◌∙◌,
}
use nexium_storage_back.Receipts.Texts.{Bytes, codes, repeat, digits, decimal, padded}
use nexium_storage_back.Receipts.Document.{xref_entry}

-- The number that the digits are read as.
unfoldable pub number : Bytes → ℕ → ℕ
number [] n = n
number (c ∷ s) n = number s (n * 10 + (c - 48))

number-digits : (fuel n : ℕ) (out : Bytes) → n ≤ fuel → number (digits fuel n out) 0 ≡ number out n
unfolding digits number
number-digits zero n out h = ap (number out) (omega arith)
number-digits (suc fuel) n out h = ground (arith, number-digits fuel (n / 10) ((48 + n % 10) ∷ out))

number-repeat : (k : ℕ) (s : Bytes) → number (repeat k 48 ++ s) 0 ≡ number s 0
unfolding number
number-repeat zero s = refl
number-repeat (suc k) s = number-repeat k s

number-decimal : (n : ℕ) → number (decimal n) 0 ≡ n
unfolding decimal number
number-decimal n = ground (arith, number-digits n n [])

length-digits :
    (k fuel n : ℕ) (out : Bytes) → n < 10 ^ k → length (digits fuel n out) ≤ k + length out
unfolding digits
length-digits k zero n out h = omega arith
length-digits zero (suc fuel) n out h = ground arith
length-digits (suc k) (suc fuel) n out h =
    ground (arith, length-digits k fuel (n / 10) ((48 + n % 10) ∷ out))

length-decimal : (n : ℕ) → n < 10 ^ 10 → length (decimal n) ≤ 10
unfolding decimal
length-decimal n h = ground (arith, length-digits 10 n n [])

length-repeat : (k c : ℕ) → length (repeat k c) ≡ k
length-repeat zero c = refl
length-repeat (suc k) c = ap suc (length-repeat k c)

pub length-padded : (n : ℕ) → n < 10 ^ 10 → length (padded 10 n) ≡ 10
unfolding padded
length-padded n h =
    length-append (repeat (10 - length (decimal n)) 48) (decimal n)
    ∙ omega (arith, length-repeat (10 - length (decimal n)) 48, length-decimal n h)

pub number-padded : (n : ℕ) → number (padded 10 n) 0 ≡ n
unfolding padded
number-padded n = number-repeat (10 - length (decimal n)) (decimal n) ∙ number-decimal n

pub length-xref_entry : (n : ℕ) → n < 10 ^ 10 → length (xref_entry n) ≡ 20
unfolding xref_entry
length-xref_entry n h =
    length-append (padded 10 n) (codes " 00000 n \n") ∙ omega (arith, length-padded n h)
