-- ===== src/Database/Migrate.antt =====
-- pkg/database/migrate.go: `RunMigrations`.
use Prim.Native.String.{◌++◌ as ◌+s◌}
use nexium_storage_back.Shared.{Bool, String, List, [], ◌∷◌, ◌=s=◌, any_by, if◌then◌else◌}
use nexium_storage_back.World.{Db, Action, pure, ignore, ◌>>=◌, ◌>>◌, query_rows, exec}

pub record Migrations : Type 0 where
  -- the names of the embedded files (migrations/embed.go), and the order of strings
  pub names : List String
  pub less : String → String → Bool
  -- what the statements of the file of the name do to the tables
  pub apply : String → Db → Db

-- `sort.Slice`
unfoldable pub insert_name : (String → String → Bool) → String → List String → List String
insert_name less n [] = n ∷ []
insert_name less n (m ∷ ms) = if less m n then m ∷ insert_name less n ms else n ∷ m ∷ ms

unfoldable pub sort_names : (String → String → Bool) → List String → List String
sort_names less [] = []
sort_names less (n ∷ ns) = insert_name less n (sort_names less ns)

abbrev pub is_in : List String → String → Bool
is_in names n = any_by (λ m. m =s= n) names

-- `ON CONFLICT DO NOTHING`
abbrev pub record_name : String → Db → Db
record_name n db =
    if is_in db.schema_migrations n
    then db
    else record db { schema_migrations = n ∷ db.schema_migrations }

-- An error of the file ends the run; one of the record is ignored.
unfoldable pub apply_one : Migrations → String → Action (Unit {0})
apply_one m n = do
  exec ("migration " +s n) (λ _. m.apply n)
  ignore (exec "schema_migrations.insert" (λ _. record_name n))

unfoldable pub apply_each : Migrations → List String → List String → Action (Unit {0})
apply_each m applied [] = pure tt
apply_each m applied (n ∷ ns) =
    let rest = apply_each m applied ns in if is_in applied n then rest else apply_one m n >> rest

unfoldable pub run_migrations : Migrations → Action (Unit {0})
run_migrations m = do
  exec "schema_migrations.create" (λ _ db. db)
  applied ← query_rows "schema_migrations.select" (λ _ db. db.schema_migrations)
  apply_each m applied (sort_names m.less m.names)
