-- ===== src/Shared/Lists.antt =====
-- Tables as lists of rows: what `SELECT`, `UPDATE`, `DELETE`, `SUM` and `LIMIT`/`OFFSET` do to them.
use Prim.Native.Nat.{ℕ, zero, suc, ◌+◌, ◌≤◌}
use mathlib.Core.Path.{◌≡◌, refl, ap}
use mathlib.Core.Bool.{Bool, true, false}
use mathlib.Core.Option.{Option, none, some}
use mathlib.Core.List.{List, [], ◌∷◌, ◌++◌}
use native.Mathlib.Omega.{arith}
use nexium_storage_back.Shared.Tests.{◌==◌, if◌then◌else◌}

module _ {ℓ} {A : Type ℓ} where
  abbrev pub length : List A → ℕ
  length [] = 0
  length (x ∷ xs) = suc (length xs)

  abbrev pub take : ℕ → List A → List A
  take zero xs = []
  take (suc n) [] = []
  take (suc n) (x ∷ xs) = x ∷ take n xs

  abbrev pub drop : ℕ → List A → List A
  drop zero xs = xs
  drop (suc n) [] = []
  drop (suc n) (x ∷ xs) = drop n xs

  -- The row that a query by a unique key yields.
  unfoldable pub find_by : (A → Bool) → List A → Option A
  find_by p [] = none
  find_by p (x ∷ xs) = if p x then some x else find_by p xs

  unfoldable pub any_by : (A → Bool) → List A → Bool
  any_by p [] = false
  any_by p (x ∷ xs) = if p x then true else any_by p xs

  unfoldable pub select_by : (A → Bool) → List A → List A
  select_by p [] = []
  select_by p (x ∷ xs) = let rest = select_by p xs in if p x then x ∷ rest else rest

  unfoldable pub update_where : (A → Bool) → (A → A) → List A → List A
  update_where p f [] = []
  update_where p f (x ∷ xs) = (if p x then f x else x) ∷ update_where p f xs

  unfoldable pub delete_where : (A → Bool) → List A → List A
  delete_where p [] = []
  delete_where p (x ∷ xs) = let rest = delete_where p xs in if p x then rest else x ∷ rest

  -- `ORDER BY`, for whether a row has to come before another: rows that are equal in it keep their order.
  unfoldable insert_by : (A → A → Bool) → A → List A → List A
  insert_by before x [] = x ∷ []
  insert_by before x (y ∷ ys) =
      let later = insert_by before x ys in if before y x then y ∷ later else x ∷ y ∷ ys

  unfoldable pub sort_by : (A → A → Bool) → List A → List A
  unfolding insert_by
  sort_by before [] = []
  sort_by before (x ∷ xs) = insert_by before x (sort_by before xs)

  -- `COALESCE(SUM(size), 0)` over the rows that match.
  unfoldable pub sum_where : (A → Bool) → (A → ℕ) → List A → ℕ
  sum_where p size [] = 0
  sum_where p size (x ∷ xs) = (if p x then size x else 0) + sum_where p size xs

module _ {ℓ} {A : Type ℓ} where
  pub length-take : (n : ℕ) (xs : List A) → length (take n xs) ≤ n
  length-take zero xs = omega arith
  length-take (suc n) [] = omega arith
  length-take (suc n) (x ∷ xs) = omega (arith, length-take n xs)

  pub take-append-drop : (n : ℕ) (xs : List A) → take n xs ++ drop n xs ≡ xs
  take-append-drop zero xs = refl
  take-append-drop (suc n) [] = refl
  take-append-drop (suc n) (x ∷ xs) = ap (λ l. x ∷ l) (take-append-drop n xs)

  pub length-append : (xs ys : List A) → length (xs ++ ys) ≡ length xs + length ys
  length-append [] ys = omega arith
  length-append (x ∷ xs) ys = omega (arith, length-append xs ys)

  pub drop-append : (xs ys : List A) → drop (length xs) (xs ++ ys) ≡ ys
  drop-append [] ys = refl
  drop-append (x ∷ xs) ys = drop-append xs ys

  pub take-append : (xs ys : List A) → take (length xs) (xs ++ ys) ≡ xs
  take-append [] ys = refl
  take-append (x ∷ xs) ys = ap (λ l. x ∷ l) (take-append xs ys)

  -- The row that a query finds satisfies its condition.
  pub find_by_sound : (p : A → Bool) (xs : List A) {x : A} → find_by p xs ≡ some x → p x ≡ true
  unfolding find_by
  find_by_sound p [] h = cc
  find_by_sound p (x ∷ xs) {x = y} h = ground (arith, find_by_sound p xs {x = y})

-- A query by a condition, before and after an update by the same one.
module _ {ℓ} {A : Type ℓ} (p : A → Bool) where
  pub any_by-find_by :
      (xs : List A)
      → any_by p xs ≡ (elim (find_by p xs) as (λ _. Bool) [ none ↦ false | some _ ↦ true ])
  unfolding any_by find_by
  any_by-find_by [] = refl
  any_by-find_by (y ∷ xs) = ground (arith, any_by-find_by xs)

  pub find_by-none : (xs : List A) → any_by p xs ≡ false → find_by p xs ≡ none
  find_by-none xs h = ground (arith, any_by-find_by xs)

  pub find_by-update_where :
      (f : A → A) (xs : List A)
      → ((y : A) → p (f y) ≡ p y)
      → find_by p (update_where p f xs)
        ≡ (elim (find_by p xs) as (λ _. Option A) [ none ↦ none | some y ↦ some (f y) ])
  unfolding find_by update_where
  find_by-update_where f [] keeps = refl
  find_by-update_where f (y ∷ xs) keeps = ground (arith, keeps y, find_by-update_where f xs keeps)

  pub any_by-delete_where : (xs : List A) → any_by p (delete_where p xs) ≡ false
  unfolding any_by delete_where
  any_by-delete_where [] = refl
  any_by-delete_where (y ∷ xs) = ground (arith, any_by-delete_where xs)

  -- An update by another condition that keeps this one.
  pub find_by-update_where_other :
      (q : A → Bool) (f : A → A) (xs : List A)
      → ((y : A) → p y ≡ true → q y ≡ false)
      → ((y : A) → q y ≡ true → p (f y) ≡ false)
      → find_by p (update_where q f xs) ≡ find_by p xs
  unfolding find_by update_where
  find_by-update_where_other q f [] apart keeps = refl
  find_by-update_where_other q f (y ∷ xs) apart keeps =
      ground (arith, apart y, keeps y, find_by-update_where_other q f xs apart keeps)

-- Rows under a primary key.
module _ {ℓ} {A : Type ℓ} (key : A → ℕ) where
  abbrev pub IsKeyed : List A → Type 0
  IsKeyed [] = Unit
  IsKeyed (x ∷ xs) = (any_by (λ y. key y == key x) xs ≡ false) × IsKeyed xs

  pub find_by-ne :
      (p q : A → Bool) (xs : List A) {x : A}
      → any_by p xs ≡ false
      → find_by q xs ≡ some x
      → p x ≡ false
  unfolding find_by any_by
  find_by-ne p q [] h e = cc
  find_by-ne p q (y ∷ xs) {x = x} h e = ground (arith, find_by-ne p q xs {x = x})

  -- An update by the key of the row that a query finds, which keeps it in the query.
  pub find_by-update_where-key :
      (q : A → Bool) (f : A → A) (xs : List A) {x : A}
      → IsKeyed xs
      → find_by q xs ≡ some x
      → q (f x) ≡ true
      → find_by q (update_where (λ y. key y == key x) f xs) ≡ some (f x)
  unfolding find_by update_where
  find_by-update_where-key q f [] keyed e h = cc
  find_by-update_where-key q f (y ∷ xs) {x = x} keyed e h = ground (
    arith,
    find_by-update_where-key q f xs {x = x} keyed.1,
    find_by-ne (λ z. key z == key y) q xs {x = x} keyed.0,
  )

  any_by-select_by :
      (p q : A → Bool) (xs : List A) → any_by p xs ≡ false → any_by p (select_by q xs) ≡ false
  unfolding any_by select_by
  any_by-select_by p q [] h = refl
  any_by-select_by p q (x ∷ xs) h = ground (arith, any_by-select_by p q xs)

  pub select_by-IsKeyed : (q : A → Bool) (xs : List A) → IsKeyed xs → IsKeyed (select_by q xs)
  unfolding select_by
  select_by-IsKeyed q [] keyed = tt
  select_by-IsKeyed q (x ∷ xs) keyed =
      ground
        (arith, select_by-IsKeyed q xs keyed.1, any_by-select_by (λ y. key y == key x) q xs keyed.0)
