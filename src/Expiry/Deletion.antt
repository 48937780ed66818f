-- ===== src/Expiry/Deletion.antt =====
-- Whose files the job of internal/expiry/job.go deletes, and whose it leaves.
use nexium_storage_back.Shared.{
  ℕ, ◌≡◌, refl, Bool, true, false, not, ◌&&◌, none, some, List, [], ◌∷◌, ◌==◌, find_by, any_by,
  select_by, delete_where, any_by-delete_where, map, arith, ok,
}
use nexium_storage_back.World.{
  User, File, Subscription, Db, Log, sql, r2_delete, Ext, World, Action, call, ignore, rows_before,
}
use nexium_storage_back.Files.{owned_by, bucket_owner, find_bucket}
use nexium_storage_back.Expiry.Job.{
  for_each, is_file_of, is_empty, delete_user_files, is_grace_over, grace_entries, delete_grace_one,
  delete_grace_period_data, is_inactive, delete_expired_files,
}

-- The files that are not the user's.
abbrev pub others_files : Db → ℕ → List File → List File
others_files db u = select_by (λ f. not (is_file_of db u f))

select_by-delete_where-not :
    (p : File → Bool) (fs : List File)
    → select_by (λ f. not (p f)) (delete_where p fs) ≡ select_by (λ f. not (p f)) fs
unfolding select_by delete_where
select_by-delete_where-not p [] = refl
select_by-delete_where-not p (f ∷ fs) = ground (arith, select_by-delete_where-not p fs)

any_by-select_by_nil :
    (p : File → Bool) (fs : List File) → is_empty (select_by p fs) ≡ true → any_by p fs ≡ false
unfolding select_by any_by
any_by-select_by_nil p [] h = refl
any_by-select_by_nil p (f ∷ fs) h = ground (arith, any_by-select_by_nil p fs)

objects_only :
    (fs : List File) (x : Ext) (w : World)
    → let (r, w') = for_each (λ (f : File). call (r2_delete f.object_key)) fs x w in
      (r ≡ ok tt) × (w'.db ≡ w.db)
unfolding for_each
objects_only [] x w = ground arith
objects_only (f ∷ fs) x w =
    ground (arith, objects_only fs x (ignore (call (r2_delete f.object_key)) x w).1)

-- The deletion of a user's files leaves every other file of the table in its place, whether it
-- returns or fails, and every bucket, project and subscription.
pub deletion_keeps_others :
    (u : ℕ) (x : Ext) (w : World)
    → let w' = (delete_user_files u x w).1 in
      (others_files w.db u w'.db.files ≡ others_files w.db u w.db.files)
      × (w'.db.buckets ≡ w.db.buckets)
      × (w'.db.projects ≡ w.db.projects)
      × (w'.db.subscriptions ≡ w.db.subscriptions)
unfolding delete_user_files
deletion_keeps_others u x w =
    let l : Log = sql "expiry.userFiles" ∷ w.log in
    let w1 : World = record { db = w.db; log = l } in
    let fs = rows_before (x.rows_read l) (select_by (is_file_of w.db u) w.db.files) in
    ground (arith, objects_only fs x w1, select_by-delete_where-not (is_file_of w.db u) w.db.files)

-- Where the list of the files is read to the end and the deletion returns, none of the user's files is
-- left.
deletion_leaves_none :
    (u : ℕ) (x : Ext) (w : World)
    → x.rows_read (sql "expiry.userFiles" ∷ w.log) ≡ none
    → (delete_user_files u x w).0 ≡ ok tt
    → any_by (is_file_of w.db u) (delete_user_files u x w).1.db.files ≡ false
unfolding delete_user_files
deletion_leaves_none u x w complete h =
    let l : Log = sql "expiry.userFiles" ∷ w.log in
    let w1 : World = record { db = w.db; log = l } in
    let fs = rows_before (x.rows_read l) (select_by (is_file_of w.db u) w.db.files) in
    ground (
      arith,
      objects_only fs x w1,
      any_by-delete_where (is_file_of w.db u) w.db.files,
      any_by-select_by_nil (is_file_of w.db u) w.db.files,
    )

select_by-delete_where_apart :
    (p q : File → Bool) (fs : List File)
    → ((f : File) → p f ≡ true → q f ≡ false)
    → select_by p (delete_where q fs) ≡ select_by p fs
unfolding select_by delete_where
select_by-delete_where_apart p q [] apart = refl
select_by-delete_where_apart p q (f ∷ fs) apart =
    ground (arith, apart f, select_by-delete_where_apart p q fs apart)

-- The buckets are where they were, and so are their projects.
abbrev Same : Db → Db → Type 0
Same db db' = (db.buckets ≡ db'.buckets) × (db.projects ≡ db'.projects)

owners_apart :
    (db db' : Db) (u v b : ℕ)
    → Same db db'
    → (u == v) ≡ false
    → owned_by db v b ≡ true
    → owned_by db' u b ≡ false
unfolding owned_by bucket_owner find_bucket
owners_apart db db' u v b same ne h = ground arith

-- The files of `v`, by the owners of the start.
abbrev Spares : Db → ℕ → Db → Db → Type 0
Spares start v db db' =
    Same start db'
    × (select_by (is_file_of start v) db'.files ≡ select_by (is_file_of start v) db.files)

delete_user_files-Spares :
    (start : Db) (u v : ℕ) (x : Ext) (w : World)
    → Same start w.db
    → (u == v) ≡ false
    → Spares start v w.db (delete_user_files u x w).1.db
unfolding delete_user_files
delete_user_files-Spares start u v x w same ne =
    let l : Log = sql "expiry.userFiles" ∷ w.log in
    let w1 : World = record { db = w.db; log = l } in
    let fs = rows_before (x.rows_read l) (select_by (is_file_of w.db u) w.db.files) in
    ground (
      arith,
      objects_only fs x w1,
      select_by-delete_where_apart (is_file_of start v) (is_file_of w.db u) w.db.files
          (λ f e. owners_apart start w.db u v f.bucket_id same ne e),
    )

-- A pass over users, each of which spares `v`.
pass-Spares :
    (start : Db) (v : ℕ) (body : ℕ → Action (Unit {0})) (us : List ℕ) (x : Ext) (w : World)
    → ((u : ℕ) (w' : World)
        → Same start w'.db
        → (u == v) ≡ false
        → Spares start v w'.db (body u x w').1.db)
    → Same start w.db
    → any_by (λ u. u == v) us ≡ false
    → Spares start v w.db (for_each body us x w).1.db
unfolding for_each any_by
pass-Spares start v body [] x w step same absent = ground arith
pass-Spares start v body (u ∷ us) x w step same absent =
    ground (arith, step u w same, pass-Spares start v body us x (body u x w).1 step)

grace_one-Spares :
    (start : Db) (u v : ℕ) (x : Ext) (w : World)
    → Same start w.db
    → (u == v) ≡ false
    → Spares start v w.db (delete_grace_one u x w).1.db
unfolding delete_grace_one
grace_one-Spares start u v x w same ne =
    ground (arith, delete_user_files-Spares start u v x w same ne)

any_by-map_select {ℓ} :
    {A : Type ℓ} (key : A → ℕ) (p : A → Bool) (v : ℕ) (xs : List A)
    → any_by (λ a. key a == v && p a) xs ≡ false
    → any_by (λ u. u == v) (map key (select_by p xs)) ≡ false
unfolding any_by select_by
any_by-map_select key p v [] h = refl
any_by-map_select key p v (a ∷ xs) h = ground (arith, any_by-map_select key p v xs)

any_by-weaken {ℓ} :
    {A : Type ℓ} (p q : A → Bool) (xs : List A)
    → ((a : A) → q a ≡ true → p a ≡ true)
    → any_by p xs ≡ false
    → any_by q xs ≡ false
unfolding any_by
any_by-weaken p q [] k h = refl
any_by-weaken p q (a ∷ xs) k h = ground (arith, k a, any_by-weaken p q xs k)

-- A user whose grace period is not over when the pass reads the clock keeps every file through the
-- pass, in order, whatever fails in it.
pub grace_spares_others :
    (v : ℕ) (x : Ext) (w : World)
    → any_by
        (λ (s : Subscription).
          s.user_id == v && is_grace_over (x.clock (sql "expiry.deleteGracePeriodData" ∷ w.log)) s)
        w.db.subscriptions
      ≡ false
    → select_by (is_file_of w.db v) (delete_grace_period_data x w).1.db.files
      ≡ select_by (is_file_of w.db v) w.db.files
unfolding delete_grace_period_data grace_entries
grace_spares_others v x w h =
    let l : Log = sql "expiry.deleteGracePeriodData" ∷ w.log in
    let t = x.clock l in
    let us = grace_entries t w.db in
    let due = λ (s : Subscription).
      is_grace_over t s
      && (elim (find_by (λ (u : User). u.id == s.user_id) w.db.users) as (λ _. Bool) [
        | none ↦ false
        | some u ↦ true
      ]) in
    let absent =
      any_by-map_select (λ (s : Subscription). s.user_id) due v w.db.subscriptions
        (any_by-weaken _ (λ s. s.user_id == v && due s) w.db.subscriptions (λ s e. ground arith)
          h) in
    let spared =
      pass-Spares w.db v delete_grace_one us x (record { db = w.db; log = l })
        (λ u w' same ne. grace_one-Spares w.db u v x w' same ne) (refl, refl) absent in
    ground (arith, spared)

-- A user who was active within 120 days keeps every file through the pass on inactive users.
active_users_keep_files :
    (v : ℕ) (x : Ext) (w : World)
    → any_by
        (λ (u : User).
          u.id == v && is_inactive 120 (x.clock (sql "expiry.deleteExpiredFiles" ∷ w.log)) u)
        w.db.users
      ≡ false
    → select_by (is_file_of w.db v) (delete_expired_files x w).1.db.files
      ≡ select_by (is_file_of w.db v) w.db.files
unfolding delete_expired_files
active_users_keep_files v x w h =
    let l : Log = sql "expiry.deleteExpiredFiles" ∷ w.log in
    let inactive = is_inactive 120 (x.clock l) in
    let us = map (λ (u : User). u.id) (select_by inactive w.db.users) in
    let absent = any_by-map_select (λ (u : User). u.id) inactive v w.db.users h in
    let spared =
      pass-Spares w.db v delete_user_files us x (record { db = w.db; log = l })
        (λ u w' same ne. delete_user_files-Spares w.db u v x w' same ne) (refl, refl) absent in
    ground (arith, spared)
