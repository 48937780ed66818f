-- ===== src/Expiry/Job/Deleting.antt =====
-- internal/expiry/job.go: what lapsed and inactive users leave.
use nexium_storage_back.Shared.{
  ℕ, ◌+◌, ◌*◌, Bool, true, false, ◌&&◌, none, some, List, [], ◌∷◌, ◌==◌, ◌=s=◌, ltb, if◌then◌else◌,
  find_by, select_by, update_where, delete_where, map,
}
use nexium_storage_back.World.{
  User, File, Subscription, Db, Action, mail, r2_delete, pure, ignore, ◌>>=◌, ◌>>◌, call, query,
  query_rows, exec,
}
use nexium_storage_back.Files.{owned_by}
use nexium_storage_back.Expiry.Job.Loops.{day, for_each, is_before, is_null}

-- The files of the buckets of the user's projects.
abbrev pub is_file_of : Db → ℕ → File → Bool
is_file_of db user_id f = owned_by db user_id f.bucket_id

abbrev pub is_empty {ℓ} : {A : Type ℓ} → List A → Bool
is_empty [] = true
is_empty (x ∷ xs) = false

unfoldable pub delete_user_files : ℕ → Action (Unit {0})
delete_user_files user_id = do
  entries ← query_rows "expiry.userFiles" (λ _ db. select_by (is_file_of db user_id) db.files)
  if is_empty entries then pure tt else (do
    for_each (λ (f : File). call (r2_delete f.object_key)) entries
    exec "expiry.deleteFiles"
        (λ _ db. record db { files = delete_where (is_file_of db user_id) db.files })
    ignore (
        exec "expiry.touchUser" (λ t db. record db {
          users =
              update_where (λ (u : User). u.id == user_id)
                (λ u. record u { last_active_at = some t; inactivity_warned_at = none }) db.users;
        })))

-- `s.status = 'expired' AND s.data_grace_end < now()`
abbrev pub is_grace_over : ℕ → Subscription → Bool
is_grace_over t s = s.status =s= "expired" && is_before t s.data_grace_end

-- `JOIN users`
unfoldable pub grace_entries : ℕ → Db → List ℕ
grace_entries t db =
    map (λ (s : Subscription). s.user_id)
      (select_by
        (λ (s : Subscription).
          is_grace_over t s
          && (elim (find_by (λ (u : User). u.id == s.user_id) db.users) as (λ _. Bool) [
            | none ↦ false
            | some u ↦ true
          ]))
        db.subscriptions)

unfoldable pub delete_grace_one : ℕ → Action (Unit {0})
delete_grace_one user_id = do
  delete_user_files user_id
  ignore (
      exec "expiry.clearGrace" (λ _ db. record db {
        subscriptions =
            update_where (λ (s : Subscription). s.user_id == user_id)
              (λ s. record s { data_grace_end = none }) db.subscriptions;
      }))

unfoldable pub delete_grace_period_data : Action (Unit {0})
delete_grace_period_data = do
  entries ← query "expiry.deleteGracePeriodData" grace_entries
  for_each delete_grace_one entries

-- `last_active_at < now() - interval '... days'`
abbrev pub is_inactive : ℕ → ℕ → User → Bool
is_inactive days t u = elim u.last_active_at as (λ _. Bool) [
  | none ↦ false
  | some last ↦ ltb (last + days * day) t
]

unfoldable pub warn_one : User → Action (Unit {0})
warn_one u = do
  call (mail "inactivity" u.email)
  ignore (
      exec "expiry.warned" (λ t db. record db {
        users =
            update_where (λ (v : User). v.id == u.id)
              (λ v. record v { inactivity_warned_at = some t }) db.users;
      }))

unfoldable pub warn_inactive_users : Action (Unit {0})
warn_inactive_users = do
  users ← query "expiry.warnInactiveUsers" (λ t db.
      select_by (λ (u : User). is_inactive 90 t u && is_null u.inactivity_warned_at) db.users)
  for_each warn_one users

unfoldable pub delete_expired_files : Action (Unit {0})
delete_expired_files = do
  ids ←
      query "expiry.deleteExpiredFiles"
        (λ t db. map (λ (u : User). u.id) (select_by (is_inactive 120 t) db.users))
  for_each delete_user_files ids
