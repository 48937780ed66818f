-- ===== src/Auth/Consistency.antt =====
-- What every operation of internal/auth/service.go keeps: identifiers, e-mails and token hashes are
-- distinct.
use nexium_storage_back.Shared.{
  ℕ, ◌≡◌, refl, Bool, false, ◌||◌, String, none, some, List, [], ◌∷◌, any_by, update_where, IsKeyed,
  arith, Bool-cases, inl, inr,
}
use nexium_storage_back.World.{User, RefreshToken, VerificationCode, Db}
use nexium_storage_back.World.Keeps.{
  Keeps, raise_if-Keeps, raise-Keeps, call-Keeps, exec-Keeps, exec_unique-Keeps, pure-Keeps,
  ask-Keeps, read-Keeps, query-Keeps, attempt-Keeps, ignore-Keeps, bind-Keeps, branch-Keeps,
}
use nexium_storage_back.Auth.Unique.{
  HaveEmails, HaveHashes, no_id-update_where, update_where-IsKeyed, update_where-HaveEmails,
  with_account-HaveEmails, delete_where-HaveHashes,
}
use nexium_storage_back.Auth.Store.{
  add_user, add_token, remove_tokens, add_code, use_code, with_verified, with_password,
  with_pending, is_token_of, has_id, has_email, has_hash, with_account, takes_email, create_user,
  update_user, set_verified, update_password, set_users, set_pending_email, clear_pending_email,
  save_refresh_token, delete_refresh_token, delete_user_tokens, create_verification_code,
  mark_code_used,
}

pub record IsConsistent (db : Db) : Type 0 where
  pub keyed : IsKeyed (λ (u : User). u.id) db.users
  pub emails : HaveEmails db.users
  pub hashes : HaveHashes db.refresh_tokens

set_users-IsConsistent :
    (f : User → User) (id : ℕ) (db : Db)
    → ((u : User) → (f u).id ≡ u.id)
    → ((u : User) → (f u).email ≡ u.email)
    → IsConsistent db
    → IsConsistent (set_users f id db)
set_users-IsConsistent f id db same_id same_email c = record {
  keyed = update_where-IsKeyed (has_id id) f db.users same_id c.keyed;
  emails = update_where-HaveEmails (has_id id) f db.users same_email c.emails;
  hashes = c.hashes;
}

any_by-or :
    (p q : User → Bool) (us : List User)
    → any_by (λ u. p u || q u) us ≡ false
    → (any_by p us ≡ false) × (any_by q us ≡ false)
unfolding any_by
any_by-or p q [] h = (refl, refl)
any_by-or p q (u ∷ us) h = ground (arith, any_by-or p q us)

pub create_user-Keeps : (u : User) → Keeps IsConsistent (create_user u)
unfolding create_user
create_user-Keeps u = exec_unique-Keeps IsConsistent _ _ (add_user u) λ t db free c.
    let (email_free, id_free) = any_by-or (has_email u.email) (has_id u.id) db.users free in
    record { keyed = (id_free, c.keyed); emails = (email_free, c.emails); hashes = c.hashes }

with_account_free :
    (id : ℕ) (name email hash : String) (db : Db)
    → IsConsistent db
    → takes_email id email db ≡ false
    → HaveEmails (update_where (has_id id) (with_account name email hash) db.users)
with_account_free id name email hash db c free = elim (Bool-cases (any_by (has_id id) db.users)) [
  | inl e ↦ with_account-HaveEmails id name email hash db.users c.keyed (ground arith) c.emails
  | inr e ↦ rw (no_id-update_where id (with_account name email hash) db.users e) c.emails
]

pub update_user-Keeps :
    (id : ℕ) (name email hash : String) → Keeps IsConsistent (update_user id name email hash)
unfolding update_user
update_user-Keeps id name email hash =
    exec_unique-Keeps IsConsistent _ (takes_email id email)
      (λ _. set_users (with_account name email hash) id)
      λ t db free c. record {
        keyed =
            update_where-IsKeyed (has_id id) (with_account name email hash) db.users (λ u. refl)
              c.keyed;
        emails = with_account_free id name email hash db c free;
        hashes = c.hashes;
      }

pub save_refresh_token-Keeps :
    (id : ℕ) (hash : String) (t : ℕ) → Keeps IsConsistent (save_refresh_token id hash t)
unfolding save_refresh_token
save_refresh_token-Keeps id hash t =
    let tok : RefreshToken = record { user_id = id; token_hash = hash; expires_at = t } in
    exec_unique-Keeps IsConsistent _ _ (λ _. add_token tok)
      λ _ db free c. record { keyed = c.keyed; emails = c.emails; hashes = (free, c.hashes) }

remove_tokens-IsConsistent :
    (p : RefreshToken → Bool) (db : Db) → IsConsistent db → IsConsistent (remove_tokens p db)
remove_tokens-IsConsistent p db c = record {
  keyed = c.keyed;
  emails = c.emails;
  hashes = delete_where-HaveHashes p db.refresh_tokens c.hashes;
}

pub set_verified-Keeps : (id : ℕ) → Keeps IsConsistent (set_verified id)
unfolding set_verified
set_verified-Keeps id =
    exec-Keeps IsConsistent _ (λ _. set_users with_verified id)
      λ t db. set_users-IsConsistent with_verified id db (λ u. refl) (λ u. refl)

pub update_password-Keeps : (id : ℕ) (hash : String) → Keeps IsConsistent (update_password id hash)
unfolding update_password
update_password-Keeps id hash =
    exec-Keeps IsConsistent _ (λ _. set_users (with_password hash) id)
      λ t db. set_users-IsConsistent (with_password hash) id db (λ u. refl) (λ u. refl)

pub set_pending_email-Keeps :
    (id : ℕ) (email : String) → Keeps IsConsistent (set_pending_email id email)
unfolding set_pending_email
set_pending_email-Keeps id email =
    exec-Keeps IsConsistent _ (λ _. set_users (with_pending (some email)) id)
      λ t db. set_users-IsConsistent (with_pending (some email)) id db (λ u. refl) (λ u. refl)

pub clear_pending_email-Keeps : (id : ℕ) → Keeps IsConsistent (clear_pending_email id)
unfolding clear_pending_email
clear_pending_email-Keeps id =
    exec-Keeps IsConsistent _ (λ _. set_users (with_pending none) id)
      λ t db. set_users-IsConsistent (with_pending none) id db (λ u. refl) (λ u. refl)

pub delete_refresh_token-Keeps : (hash : String) → Keeps IsConsistent (delete_refresh_token hash)
unfolding delete_refresh_token
delete_refresh_token-Keeps hash =
    exec-Keeps IsConsistent _ (λ _. remove_tokens (has_hash hash))
      λ t. remove_tokens-IsConsistent (has_hash hash)

pub delete_user_tokens-Keeps : (id : ℕ) → Keeps IsConsistent (delete_user_tokens id)
unfolding delete_user_tokens
delete_user_tokens-Keeps id =
    exec-Keeps IsConsistent _ (λ _. remove_tokens (is_token_of id))
      λ t. remove_tokens-IsConsistent (is_token_of id)

add_code-IsConsistent :
    (c : VerificationCode) (t : ℕ) (db : Db) → IsConsistent db → IsConsistent (add_code c t db)
add_code-IsConsistent c t db h = record { keyed = h.keyed; emails = h.emails; hashes = h.hashes }

use_code-IsConsistent : (id t : ℕ) (db : Db) → IsConsistent db → IsConsistent (use_code id t db)
use_code-IsConsistent id t db h = record { keyed = h.keyed; emails = h.emails; hashes = h.hashes }

pub create_verification_code-Keeps :
    (id : ℕ) (hash purpose : String) (t : ℕ)
    → Keeps IsConsistent (create_verification_code id hash purpose t)
unfolding create_verification_code
create_verification_code-Keeps id hash purpose t =
    search (bind-Keeps, read-Keeps, exec-Keeps, add_code-IsConsistent)

pub mark_code_used-Keeps : (id : ℕ) → Keeps IsConsistent (mark_code_used id)
unfolding mark_code_used
mark_code_used-Keeps id = search (exec-Keeps, use_code-IsConsistent)

pub ruleset statements = (
  raise_if-Keeps, raise-Keeps, pure-Keeps, ask-Keeps, read-Keeps, query-Keeps, attempt-Keeps,
  ignore-Keeps, branch-Keeps, bind-Keeps, call-Keeps, create_user-Keeps, update_user-Keeps,
  save_refresh_token-Keeps, set_verified-Keeps, update_password-Keeps, set_pending_email-Keeps,
  clear_pending_email-Keeps, delete_refresh_token-Keeps, delete_user_tokens-Keeps,
  create_verification_code-Keeps, mark_code_used-Keeps,
)
