-- ===== src/Storage/Batches.antt =====
-- The deletion of all objects under a prefix.
use mathlib.Core.List.{append_assoc, append-nil, map}
use nexium_storage_back.Shared.{
  ℕ, zero, suc, ◌+◌, ◌-◌, ◌≤◌, ◌<◌, ◌≡◌, refl, sym, String, List, [], ◌∷◌, ◌++◌, arith, ltb, length,
  take, drop, take-append-drop, Bool-cases, inl, inr, ap, ◌∙◌, Error, Result, ok, err,
}
use nexium_storage_back.Storage.Client.{
  ObjectStore, collect, batch_size, batch_at, delete_batches, delete_by_prefix,
}

abbrev pub concat : List (List String) → List String
concat [] = []
concat (b ∷ bs) = b ++ concat bs

-- What the S3 interface takes: from 1 to 1000 keys.
abbrev pub AreBatches : List (List String) → Type 0
AreBatches [] = Unit
AreBatches (b ∷ bs) = (0 < length b) × (length b ≤ 1000) × AreBatches bs

drop_all : (n : ℕ) (xs : List String) → length xs ≤ n → drop n xs ≡ []
drop_all zero [] h = refl
drop_all zero (x ∷ xs) h = absurd (omega arith)
drop_all (suc n) [] h = refl
drop_all (suc n) (x ∷ xs) h = drop_all n xs (omega arith)

drop-nil : (n : ℕ) → drop {A = String} n [] ≡ []
drop-nil zero = refl
drop-nil (suc n) = refl

drop-drop : (i k j : ℕ) (xs : List String) → j ≡ i + k → drop k (drop i xs) ≡ drop j xs
drop-drop zero k j xs e = ap (λ n. drop n xs) (omega (arith, e))
drop-drop (suc i) k zero xs e = absurd (omega (arith, e))
drop-drop (suc i) k (suc j) [] e = drop-nil k
drop-drop (suc i) k (suc j) (x ∷ xs) e = drop-drop i k j xs (omega (arith, e))

length-drop : (i : ℕ) (xs : List String) → length (drop i xs) ≡ length xs - i
length-drop zero xs = omega arith
length-drop (suc i) [] = omega arith
length-drop (suc i) (x ∷ xs) = omega (arith, length-drop i xs)

length-take_min : (n : ℕ) (xs : List String) → n ≤ length xs → length (take n xs) ≡ n
length-take_min zero xs h = refl
length-take_min (suc n) [] h = absurd (omega arith)
length-take_min (suc n) (x ∷ xs) h = ap suc (length-take_min n xs (omega arith))

-- The slice has as many keys as its bounds say.
batch_at-length :
    (i : ℕ) (keys : List String)
    → i < length keys
    → (0 < length (batch_at i keys)) × (length (batch_at i keys) ≤ 1000)
batch_at-length i keys h = ground (
  arith,
  length-drop i keys,
  length-take_min (length keys - i) (drop i keys),
  length-take_min (i + batch_size - i) (drop i keys),
)

take_all : (n : ℕ) (xs : List String) → length xs ≤ n → take n xs ≡ xs
take_all zero [] h = refl
take_all zero (x ∷ xs) h = absurd (omega arith)
take_all (suc n) [] h = refl
take_all (suc n) (x ∷ xs) h = ap (λ l. x ∷ l) (take_all n xs (omega arith))

batch_at-append :
    (i : ℕ) (keys : List String) → batch_at i keys ++ drop (i + batch_size) keys ≡ drop i keys
batch_at-append i keys = elim (Bool-cases (ltb (length keys) (i + batch_size))) [
  | inl e ↦ rw (
    e,
    take_all (length keys - i) (drop i keys) (omega (arith, length-drop i keys)),
    drop_all (i + batch_size) keys (ground arith),
    append-nil,
  )
  | inr e ↦
      let n : i + batch_size - i ≡ batch_size = omega arith in
      rw (e, n)
        (ap (λ rest. take batch_size (drop i keys) ++ rest)
            (sym (drop-drop i batch_size (i + batch_size) keys refl))
          ∙ take-append-drop batch_size (drop i keys))
]

module _ (answer : List String → Result (Unit {0})) where
  delete_batches-AreBatches :
      (rounds i : ℕ) (keys : List String) → AreBatches (delete_batches rounds answer i keys).0
  unfolding delete_batches
  delete_batches-AreBatches zero i keys = tt
  delete_batches-AreBatches (suc rounds) i keys =
      ground (arith, batch_at-length i keys, delete_batches-AreBatches rounds (i + batch_size) keys)

  delete_batches-concat :
      (rounds i : ℕ) (keys : List String)
      → length keys ≤ i + rounds
      → (delete_batches rounds answer i keys).1 ≡ ok tt
      → concat (delete_batches rounds answer i keys).0 ≡ drop i keys
  unfolding delete_batches
  delete_batches-concat zero i keys h e = sym (drop_all i keys (omega arith))
  delete_batches-concat (suc rounds) i keys h e = ground (
    arith,
    delete_batches-concat rounds (i + batch_size) keys,
    batch_at-append i keys,
    drop_all i keys,
  )

  -- Where the store takes each batch, the deletion returns.
  delete_batches_ok :
      (rounds i : ℕ) (keys : List String)
      → ((batch : List String) → answer batch ≡ ok tt)
      → (delete_batches rounds answer i keys).1 ≡ ok tt
  unfolding delete_batches
  delete_batches_ok zero i keys up = refl
  delete_batches_ok (suc rounds) i keys up =
      ground (arith, up (batch_at i keys), delete_batches_ok rounds (i + batch_size) keys up)

collect-pages :
    (pages : List (List String)) (found : List String)
    → collect (map ok pages) found ≡ ok (found ++ concat pages)
unfolding collect
collect-pages [] found = ap ok (sym (append-nil found))
collect-pages (p ∷ ps) found =
    collect-pages ps (found ++ p) ∙ ap ok (append_assoc found p (concat ps))

-- A deletion by a prefix that returns has sent each key of each page for deletion, once and in its
-- order, in batches of 1 to 1000 keys, as many as the store takes at a time.
pub delete_by_prefix-sends :
    (s : ObjectStore) (prefix : String) (pages : List (List String))
    → s.pages prefix ≡ map ok pages
    → (delete_by_prefix s prefix).1 ≡ ok tt
    → (concat (delete_by_prefix s prefix).0 ≡ concat pages)
      × AreBatches (delete_by_prefix s prefix).0
unfolding delete_by_prefix
delete_by_prefix-sends s prefix pages e h =
    let keys : List String = concat pages in
    let listed : collect (s.pages prefix) [] ≡ ok keys = rw e (collect-pages pages []) in
    let h' : (delete_batches (length keys) s.delete_objects 0 keys).1 ≡ ok tt = rw listed at h in
    rw listed (
      delete_batches-concat s.delete_objects (length keys) 0 keys (omega arith) h',
      delete_batches-AreBatches s.delete_objects (length keys) 0 keys,
    )

-- Where the listing and the store do not fail, the deletion returns.
delete_by_prefix_returns :
    (s : ObjectStore) (prefix : String) (pages : List (List String))
    → s.pages prefix ≡ map ok pages
    → ((batch : List String) → s.delete_objects batch ≡ ok tt)
    → (delete_by_prefix s prefix).1 ≡ ok tt
unfolding delete_by_prefix
delete_by_prefix_returns s prefix pages e up =
    rw (e, collect-pages pages [])
      (delete_batches_ok s.delete_objects (length (concat pages)) 0 (concat pages) up)

-- A page that cannot be listed leaves every object in its place.
delete_by_prefix_unlisted :
    (s : ObjectStore) (prefix : String) {e : Error}
    → collect (s.pages prefix) [] ≡ err e
    → delete_by_prefix s prefix ≡ ([], err e)
unfolding delete_by_prefix
delete_by_prefix_unlisted s prefix e = rw e
