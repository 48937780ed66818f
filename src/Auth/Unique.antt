-- ===== src/Auth/Unique.antt =====
-- The `UNIQUE` columns of `users` and `refresh_tokens` (migrations/001_initial.sql), and the
-- statements of internal/auth/store.go that write them.
use text.Mathlib.TextEquality.{eq_iff}
use nexium_storage_back.Shared.{
  ℕ, ◌≡◌, refl, Bool, false, not, ◌&&◌, String, List, [], ◌∷◌, ◌==◌, ◌=s=◌, any_by, update_where,
  delete_where, IsKeyed, arith, ap,
}
use nexium_storage_back.World.{User, RefreshToken}
use nexium_storage_back.Auth.Store.{has_email, has_id, has_hash, with_account}

abbrev pub HaveEmails : List User → Type 0
HaveEmails [] = Unit
HaveEmails (u ∷ us) = (any_by (has_email u.email) us ≡ false) × HaveEmails us

abbrev pub HaveHashes : List RefreshToken → Type 0
HaveHashes [] = Unit
HaveHashes (t ∷ ts) = (any_by (has_hash t.token_hash) ts ≡ false) × HaveHashes ts

any_by-update_where {ℓ} :
    {A : Type ℓ} (q p : A → Bool) (f : A → A) (xs : List A)
    → ((y : A) → q (f y) ≡ q y)
    → any_by q (update_where p f xs) ≡ any_by q xs
unfolding any_by update_where
any_by-update_where q p f [] k = refl
any_by-update_where q p f (y ∷ xs) k = ground (arith, k y, any_by-update_where q p f xs k)

pub any_by-delete_where_other {ℓ} :
    {A : Type ℓ} (q p : A → Bool) (xs : List A)
    → any_by q xs ≡ false
    → any_by q (delete_where p xs) ≡ false
unfolding any_by delete_where
any_by-delete_where_other q p [] h = refl
any_by-delete_where_other q p (y ∷ xs) h = ground (arith, any_by-delete_where_other q p xs)

-- An update that keeps the identifiers.
pub update_where-IsKeyed :
    (p : User → Bool) (f : User → User) (us : List User)
    → ((u : User) → (f u).id ≡ u.id)
    → IsKeyed (λ (u : User). u.id) us
    → IsKeyed (λ (u : User). u.id) (update_where p f us)
unfolding any_by update_where
update_where-IsKeyed p f [] k h = tt
update_where-IsKeyed p f (u ∷ us) k h = ground (
  arith,
  k u,
  any_by-update_where (λ v. v.id == u.id) p f us (λ v. ap (λ n. n == u.id) (k v)),
  update_where-IsKeyed p f us k h.1,
)

-- And one that keeps the e-mails.
pub update_where-HaveEmails :
    (p : User → Bool) (f : User → User) (us : List User)
    → ((u : User) → (f u).email ≡ u.email)
    → HaveEmails us
    → HaveEmails (update_where p f us)
unfolding any_by update_where
update_where-HaveEmails p f [] k h = tt
update_where-HaveEmails p f (u ∷ us) k h = ground (
  arith,
  k u,
  any_by-update_where (has_email u.email) p f us (λ v. ap (λ e. e =s= u.email) (k v)),
  update_where-HaveEmails p f us k h.1,
)

pub no_id-update_where :
    (id : ℕ) (f : User → User) (us : List User)
    → any_by (has_id id) us ≡ false
    → update_where (has_id id) f us ≡ us
unfolding any_by update_where
no_id-update_where id f [] h = refl
no_id-update_where id f (u ∷ us) h = ground (arith, no_id-update_where id f us)

no_other-any_by :
    (id : ℕ) (email : String) (us : List User)
    → any_by (has_id id) us ≡ false
    → any_by (λ u. not (has_id id u) && has_email email u) us ≡ false
    → any_by (has_email email) us ≡ false
unfolding any_by
no_other-any_by id email [] h e = refl
no_other-any_by id email (u ∷ us) h e = ground (arith, no_other-any_by id email us)

-- No row gets the e-mail of another one.
other-update_where :
    (id : ℕ) (name email hash other : String) (us : List User)
    → any_by (has_email other) us ≡ false
    → (email =s= other) ≡ false
    → any_by (has_email other) (update_where (has_id id) (with_account name email hash) us) ≡ false
unfolding any_by update_where
other-update_where id name email hash other [] h e = refl
other-update_where id name email hash other (u ∷ us) h e =
    ground (arith, other-update_where id name email hash other us)

pub with_account-HaveEmails :
    (id : ℕ) (name email hash : String) (us : List User)
    → IsKeyed (λ (u : User). u.id) us
    → any_by (λ u. not (has_id id u) && has_email email u) us ≡ false
    → HaveEmails us
    → HaveEmails (update_where (has_id id) (with_account name email hash) us)
unfolding any_by update_where
with_account-HaveEmails id name email hash [] keyed free h = tt
with_account-HaveEmails id name email hash (u ∷ us) keyed free h = ground (
  arith,
  no_id-update_where id (with_account name email hash) us,
  no_other-any_by id email us,
  other-update_where id name email hash u.email us h.0,
  with_account-HaveEmails id name email hash us keyed.1,
  eq_iff email u.email,
  eq_iff u.email email,
)

pub delete_where-HaveHashes :
    (p : RefreshToken → Bool) (ts : List RefreshToken)
    → HaveHashes ts
    → HaveHashes (delete_where p ts)
unfolding delete_where
delete_where-HaveHashes p [] h = tt
delete_where-HaveHashes p (t ∷ ts) h =
    ground
      (arith, any_by-delete_where_other (has_hash t.token_hash) p ts, delete_where-HaveHashes p ts)
