-- ===== src/Logs/Patterns.antt =====
-- The filter of the activity log: its `LIKE`, and prefixes of texts.
use Prim.Native.Char.{Char, code}
use Prim.Native.String.{[] as []ₛ, ◌∷◌ as ◌∷ₛ◌, ◌++◌ as ◌+s◌}
use Prim.Native.String.append.{cons}
use text.Mathlib.TextEquality.{eq_iff}
use nexium_storage_back.Shared.{
  ℕ, Option, none, some, ◌≡◌, refl, Bool, true, false, not, ◌&&◌, String, ◌∷◌, ◌==◌, arith, sym,
  subst, Bool-cases, inl, inr, ◌=s=◌,
}
use nexium_storage_back.World.{ActivityLog}
use nexium_storage_back.Logs.Store.{Filter, exactly, tokens, matches, like, is_asked, is_user}

-- A text without a sign of the patterns: "%", "_" and the backslash.
unfoldable pub is_literal : String → Bool
is_literal []ₛ = true
is_literal (c ∷ₛ a) =
    not (code c == 37) && (not (code c == 95) && (not (code c == 92) && is_literal a))

unfoldable pub has_prefix : String → String → Bool
has_prefix []ₛ s = true
has_prefix (c ∷ₛ a) []ₛ = false
has_prefix (c ∷ₛ a) (d ∷ₛ s) = code c == code d && has_prefix a s

matches_any : (s : String) → matches (tokens false "%") s ≡ true
unfolding matches tokens
matches_any []ₛ = refl
matches_any (d ∷ₛ s) = ground (arith, matches_any s)

tokens_literal :
    (c : Char) (p : String)
    → (code c == 37) ≡ false
    → (code c == 95) ≡ false
    → (code c == 92) ≡ false
    → tokens false (c ∷ₛ p) ≡ exactly (code c) ∷ tokens false p
unfolding tokens
tokens_literal c p h i j = rw (h, i, j) refl

-- Without a sign of the patterns, the filter is a prefix of the action.
like_prefix : (a s : String) → is_literal a ≡ true → like s (a +s "%") ≡ has_prefix a s
unfolding matches is_literal has_prefix
like_prefix []ₛ s h = matches_any s
like_prefix (c ∷ₛ a) []ₛ h =
    let e = tokens_literal c (a +s "%") (ground arith) (ground arith) (ground arith) in
    rw (cons c a "%", e) refl
like_prefix (c ∷ₛ a) (d ∷ₛ s) h =
    let e = tokens_literal c (a +s "%") (ground arith) (ground arith) (ground arith) in
    rw (cons c a "%", e) ground (arith, like_prefix a s)

-- The row has the user of the filter, and its action begins by that of the filter.
abbrev pub is_wanted : Filter → ActivityLog → Bool
is_wanted f a =
    (elim f.user_id as (λ _. Bool) [ none ↦ true | some id ↦ a.user_id == id ])
    && has_prefix f.action a.action

abbrev is_given : Option ℕ → ActivityLog → Bool
is_given o a = elim o as (λ _. Bool) [ none ↦ true | some id ↦ a.user_id == id ]

is_user_lem : (o : Option ℕ) (a : ActivityLog) → is_user o a ≡ is_given o a
is_user_lem none a = refl
is_user_lem (some id) a = refl

pub is_asked_iff :
    (f : Filter) (a : ActivityLog) → is_literal f.action ≡ true → is_asked f a ≡ is_wanted f a
unfolding has_prefix
is_asked_iff f a h =
    let s = f.action in
    elim (Bool-cases (s =s= "")) [
      | inl e ↦
          let empty = sym ((eq_iff s "").0 e) in
          let all = subst (λ p. has_prefix p a.action ≡ true) empty refl in
          rw (is_user_lem f.user_id a, e, all) refl
      | inr e ↦ rw (is_user_lem f.user_id a, e, like_prefix s a.action h) refl
    ]
