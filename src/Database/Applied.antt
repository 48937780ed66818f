-- ===== src/Database/Applied.antt =====
-- Which migrations pkg/database/migrate.go applies, and that it does so once.
use text.Mathlib.TextPositions.{eq_refl}
use text.Mathlib.TextEquality.{eq_iff}
use Prim.Native.String.{◌++◌ as ◌+s◌}
use nexium_storage_back.Shared.{
  ℕ, zero, suc, Option, none, some, ◌≡◌, refl, Bool, true, false, String, List, [], ◌∷◌, any_by,
  arith, ok,
}
use nexium_storage_back.World.{◌>>◌, ignore, exec, Db, Ext, World, Log, sql, rows_before}
use nexium_storage_back.World.Keeps.{
  Keeps, pure-Keeps, bind-Keeps, exec-Keeps, ignore-Keeps, branch-Keeps,
}
use nexium_storage_back.Database.Migrate.{
  Migrations, insert_name, sort_names, is_in, record_name, apply_one, apply_each, run_migrations,
}

-- Every name is recorded.
abbrev AreRecorded : List String → List String → Type 0
AreRecorded [] applied = Unit
AreRecorded (n ∷ ns) applied = (is_in applied n ≡ true) × AreRecorded ns applied

apply_each-recorded :
    (m : Migrations) (ns applied : List String) (x : Ext) (w : World)
    → AreRecorded ns applied
    → apply_each m applied ns x w ≡ (ok tt, w)
unfolding apply_each
apply_each-recorded m [] applied x w h = refl
apply_each-recorded m (n ∷ ns) applied x w h =
    ground (arith, apply_each-recorded m ns applied x w h.1)

-- Every file leaves the record of the applied ones alone.
abbrev KeepsRecord : Migrations → Type 0
KeepsRecord m = (n : String) (db : Db) → (m.apply n db).schema_migrations ≡ db.schema_migrations

abbrev IsRecorded : String → Db → Type 0
IsRecorded n db = is_in db.schema_migrations n ≡ true

record_name-IsRecorded :
    (n k : String) (db : Db) → IsRecorded n db → IsRecorded n (record_name k db)
unfolding any_by
record_name-IsRecorded n k db h = ground arith

apply-IsRecorded :
    (m : Migrations) (n k : String) (db : Db)
    → KeepsRecord m
    → IsRecorded n db
    → IsRecorded n (m.apply k db)
apply-IsRecorded m n k db keeps h = rw (keeps k db) h

apply_one-Keeps :
    (m : Migrations) (n k : String) → KeepsRecord m → Keeps (IsRecorded n) (apply_one m k)
unfolding apply_one
apply_one-Keeps m n k keeps =
    let recorded =
      ignore-Keeps (IsRecorded n) (exec "schema_migrations.insert" (λ _. record_name k)) (
        exec-Keeps (IsRecorded n) "schema_migrations.insert" (λ _. record_name k)
          (λ t. record_name-IsRecorded n k)) in
    bind-Keeps (IsRecorded n) (exec ("migration " +s k) (λ _. m.apply k))
      (λ _. ignore (exec "schema_migrations.insert" (λ _. record_name k)))
      (exec-Keeps (IsRecorded n) ("migration " +s k) (λ _. m.apply k)
        (λ t db h. apply-IsRecorded m n k db keeps h))
      (λ _. recorded)

apply_each-Keeps :
    (m : Migrations) (n : String) (ns applied : List String)
    → KeepsRecord m
    → Keeps (IsRecorded n) (apply_each m applied ns)
unfolding apply_each
apply_each-Keeps m n [] applied keeps = pure-Keeps {0} (IsRecorded n) tt
apply_each-Keeps m n (k ∷ ns) applied keeps =
    let rest = apply_each-Keeps m n ns applied keeps in
    branch-Keeps (IsRecorded n) (is_in applied k) (apply_each m applied ns)
      (apply_one m k >> apply_each m applied ns) rest
      (bind-Keeps (IsRecorded n) (apply_one m k) (λ _. apply_each m applied ns)
        (apply_one-Keeps m n k keeps) (λ _. rest))

apply_one-records :
    (m : Migrations) (n : String) (x : Ext) (w : World)
    → ((l : Log) → x.fails l ≡ false)
    → let (r, w') = apply_one m n x w in (r ≡ ok tt) × IsRecorded n w'.db
unfolding apply_one any_by
apply_one-records m n x w up = ground (
  arith,
  up (sql ("migration " +s n) ∷ w.log),
  up (sql "schema_migrations.insert" ∷ sql ("migration " +s n) ∷ w.log),
  eq_refl n,
)

-- Where no call fails, each name that is not recorded at the start is recorded at the end.
apply_each-records :
    (m : Migrations) (ns applied : List String) (n : String) (x : Ext) (w : World)
    → KeepsRecord m
    → ((l : Log) → x.fails l ≡ false)
    → is_in ns n ≡ true
    → (is_in applied n ≡ true → IsRecorded n w.db)
    → IsRecorded n (apply_each m applied ns x w).1.db
unfolding apply_each any_by
apply_each-records m [] applied n x w keeps up h k = cc
apply_each-records m (y ∷ ns) applied n x w keeps up h k =
    let w1 = (apply_one m y x w).1 in
    ground (
      arith,
      eq_iff y n,
      k,
      apply_one-records m y x w up,
      apply_one-Keeps m n y keeps x w,
      apply_each-Keeps m n ns applied keeps x w,
      apply_each-Keeps m n ns applied keeps x w1,
      λ (e : is_in ns n ≡ true). apply_each-records m ns applied n x w keeps up e k,
      λ (e : is_in ns n ≡ true).
          apply_each-records m ns applied n x w1 keeps up e
            (λ a. apply_one-Keeps m n y keeps x w (k a)),
    )

is_in-insert_name :
    (less : String → String → Bool) (m : String) (ns : List String) (n : String)
    → is_in (insert_name less m ns) n ≡ is_in (m ∷ ns) n
unfolding insert_name any_by
is_in-insert_name less m [] n = refl
is_in-insert_name less m (k ∷ ns) n = ground (arith, is_in-insert_name less m ns n)

is_in-sort_names :
    (less : String → String → Bool) (ns : List String) (n : String)
    → is_in (sort_names less ns) n ≡ is_in ns n
unfolding sort_names any_by
is_in-sort_names less [] n = refl
is_in-sort_names less (m ∷ ns) n =
    ground (arith, is_in-insert_name less m (sort_names less ns) n, is_in-sort_names less ns n)

AreRecorded-all :
    (ns applied : List String)
    → ((n : String) → is_in ns n ≡ true → is_in applied n ≡ true)
    → AreRecorded ns applied
unfolding any_by
AreRecorded-all [] applied h = tt
AreRecorded-all (n ∷ ns) applied h =
    (h n (ground (arith, eq_refl n)), AreRecorded-all ns applied (λ k e. h k (ground (arith, e))))

is_in-rows_before :
    (k : Option ℕ) (ns : List String) (n : String)
    → is_in (rows_before k ns) n ≡ true
    → is_in ns n ≡ true
unfolding any_by
is_in-rows_before none ns n h = h
is_in-rows_before (some zero) ns n h = cc
is_in-rows_before (some (suc k)) [] n h = h
is_in-rows_before (some (suc k)) (m ∷ ns) n h = ground (arith, is_in-rows_before (some k) ns n)

-- After a start in which no call fails, every file is recorded.
run_migrations-records :
    (m : Migrations) (x : Ext) (w : World) (n : String)
    → KeepsRecord m
    → ((l : Log) → x.fails l ≡ false)
    → is_in (sort_names m.less m.names) n ≡ true
    → is_in (run_migrations m x w).1.db.schema_migrations n ≡ true
unfolding run_migrations
run_migrations-records m x w n keeps up h =
    let l : Log = sql "schema_migrations.create" ∷ w.log in
    let l' : Log = sql "schema_migrations.select" ∷ l in
    let applied = rows_before (x.rows_read l') w.db.schema_migrations in
    ground (
      arith,
      up l,
      up l',
      apply_each-records m (sort_names m.less m.names) applied n x (record w { log = l' }) keeps up
          h (is_in-rows_before (x.rows_read l') w.db.schema_migrations n),
    )

-- After a start in which no call fails, the next start changes no table, where it reads the names of the
-- applied files to the end or fails to ask for them, and where the files leave the table of the applied
-- ones alone. The first start may have read its names only in part.
pub second_run_applies_nothing :
    (m : Migrations) (x x' : Ext) (w : World) (l : Log)
    → ((n : String) (db : Db) → (m.apply n db).schema_migrations ≡ db.schema_migrations)
    → ((l' : Log) → x.fails l' ≡ false)
    → x'.rows_read (sql "schema_migrations.select" ∷ sql "schema_migrations.create" ∷ l) ≡ none
    → let w' = (run_migrations m x w).1 in
      (run_migrations m x' (record w' { log = l })).1.db ≡ w'.db
unfolding run_migrations
second_run_applies_nothing m x x' w l keeps up complete =
    let db' = (run_migrations m x w).1.db in
    let l1 : Log = sql "schema_migrations.create" ∷ l in
    let l2 : Log = sql "schema_migrations.select" ∷ l1 in
    let names = sort_names m.less m.names in
    let all =
      AreRecorded-all names db'.schema_migrations
        (λ n e. run_migrations-records m x w n keeps up e) in
    ground (
      arith,
      apply_each-recorded m names db'.schema_migrations x' (record { db = db'; log = l2 }) all,
    )
