-- ===== src/World/Actions.antt =====
-- Actions of the service: they read what the outside answers, change the state, and return a value
-- or an error. What was written before an error stays written: the code opens no transaction.
use nexium_storage_back.Shared.{
  ℕ, Bool, ◌||◌, String, Option, none, some, List, ◌∷◌, take, Error, infra, Result, ok, err,
  if◌then◌else◌,
}
use nexium_storage_back.World.Tables.{Db}

-- A call of the outside, with the arguments that matter.
pub data Event : Type 0 where
  -- an SQL statement, named by the function that issues it
  sql : String → Event
  -- internal/storage/r2.go
  r2_put : String → ℕ → Event
  r2_delete : String → Event
  r2_delete_prefix : String → Event
  r2_get : String → Event
  r2_head : String → Event
  r2_presign_get : String → Event
  r2_presign_put : String → Event
  -- a payment of the id is created at, or read from, the gateway of the name
  gateway_create : String → ℕ → ℕ → Event
  gateway_get : String → String → Event
  -- a POST to the URL, with the signature and the body
  http_post : String → String → String → Event
  http_get : String → Event
  -- `time.Sleep`, in seconds
  sleep : ℕ → Event
  -- an e-mail of the kind to the address
  mail : String → String → Event
  -- internal/mailer/mailer.go: an e-mail with the subject and the text to the address
  mail_html : String → String → String → Event
  -- the same with a file of the name, the type and the bytes
  mail_file : String → String → String → String → String → List ℕ → Event
  -- `go f(...)`: a goroutine is started for the user
  spawn : String → ℕ → Event
  -- `time.Now()`, `uuid.New()`, and `rand.Read` of crypto/rand, written in hexadecimal
  clock_read : Event
  uuid_new : Event
  random_read : Event
  -- `rand.Int` of crypto/rand, below the bound
  random_int : ℕ → Event

-- What a payment gateway returns (pkg/adullam/client.go, pkg/saspay/client.go: `Payment`).
pub record Remote : Type 0 where
  pub id : String
  pub status : String
  pub redirect_url : String
  pub failure_reason : String

abbrev pub Log : Type 0
Log = List Event

pub record Ext : Type 0 where
  -- the call at the head of the log ends in an error
  pub fails : Log → Bool
  -- where the rows of the query at the head of the log are not all read, how many of them are
  pub rows_read : Log → Option ℕ
  pub clock : Log → ℕ
  pub uuid : Log → ℕ
  pub object_size : Log → ℕ
  pub object_type : Log → String
  pub presigned_url : Log → String
  pub remote : Log → Remote
  pub http_status : Log → ℕ
  pub random : Log → String
  -- the same as bytes, and the number that `rand.Int` draws
  pub random_bytes : Log → List ℕ
  pub random_number : Log → ℕ
  -- `uuid.UUID.String()` and `uuid.Parse`, of github.com/google/uuid
  pub uuid_string : ℕ → String
  pub parse_uuid : String → Option ℕ
  -- the subject of a valid token signed by HMAC with the secret, of github.com/golang-jwt/jwt
  pub jwt_subject : String → String → Option String
  -- SHA-256, in hexadecimal
  pub sha256_hex : String → String

pub record World : Type 0 where
  pub db : Db
  pub log : Log

abbrev pub Action {ℓ} : Type ℓ → Type ℓ
Action A = Ext → World → Result A × World

module _ {ℓ} {A : Type ℓ} where
  abbrev pub pure : A → Action A
  pure a x w = (ok a, w)

  abbrev pub raise : Error → Action A
  raise e x w = (err e, w)

-- The value of a call that ended in `r`, without leaving the function: `v, err := f()`.
abbrev pub attempt {ℓ} : {A : Type ℓ} → Action A → Action (Result A)
attempt m x w = let (r, w') = m x w in (ok r, w')

infixl 5 ◌>>=◌ ◌>>◌
abbrev pub ◌>>=◌ {ℓ κ} : {A : Type ℓ} {B : Type κ} → Action A → (A → Action B) → Action B
◌>>=◌ m f x w = let (r, w') = m x w in elim r [ ok a ↦ f a x w' | err e ↦ (err e, w') ]

abbrev pub ◌>>◌ {ℓ κ} : {A : Type ℓ} {B : Type κ} → Action A → Action B → Action B
m >> k = m >>= λ _. k

abbrev note : Event → World → World
note e w = record w { log = e ∷ w.log }

-- `if cond { return e }`
abbrev pub raise_if : Bool → Error → Action (Unit {0})
raise_if c e x w = (if c then err e else ok tt, w)

-- `if cond { ... }`
abbrev pub when : Bool → Action (Unit {0}) → Action (Unit {0})
when c m = if c then m else pure tt

-- `_ = f()`
abbrev pub ignore {ℓ} : {A : Type ℓ} → Action A → Action (Unit {0})
ignore m x w = (ok tt, (m x w).1)

-- A call with no result but its error.
abbrev pub call : Event → Action (Unit {0})
call e x w = let w' = note e w in (if x.fails w'.log then err infra else ok tt, w')

-- A call whose result is read from the outside.
abbrev pub ask {ℓ} : {A : Type ℓ} → (Ext → Log → A) → Event → Action A
ask f e x w = let w' = note e w in (if x.fails w'.log then err infra else ok (f x w'.log), w')

-- A call that cannot fail.
abbrev pub read {ℓ} : {A : Type ℓ} → (Ext → Log → A) → Event → Action A
read f e x w = let w' = note e w in (ok (f x w'.log), w')

-- A statement that reads the tables; `now()` is the first argument.
abbrev pub query {ℓ} : {A : Type ℓ} → String → (ℕ → Db → A) → Action A
query name f x w =
    let w' = note (sql name) w in
    (if x.fails w'.log then err infra else ok (f (x.clock w'.log) w.db), w')

-- What `for rows.Next()` gets where the reading of the rows may end early.
abbrev pub rows_before {ℓ} : {A : Type ℓ} → Option ℕ → List A → List A
rows_before none rows = rows
rows_before (some n) rows = take n rows

-- A query whose rows are read with no look at `rows.Err()`: a reading that fails gives fewer rows, and
-- no error.
abbrev pub query_rows {ℓ} : {A : Type ℓ} → String → (ℕ → Db → List A) → Action (List A)
query_rows name f x w =
    let w' = note (sql name) w in
    (
      if x.fails w'.log
          then err infra
          else ok (rows_before (x.rows_read w'.log) (f (x.clock w'.log) w.db)),
      w',
    )

-- A statement that writes the tables. One that ends in an error has written nothing.
abbrev pub exec : String → (ℕ → Db → Db) → Action (Unit {0})
exec name f x w =
    let w' = note (sql name) w in
    if x.fails w'.log then (err infra, w') else (ok tt, record w' { db = f (x.clock w'.log) w.db })

-- A statement that writes the tables, and fails where the new rows would break a `UNIQUE`.
abbrev pub exec_unique : String → (Db → Bool) → (ℕ → Db → Db) → Action (Unit {0})
exec_unique name breaks f x w =
    let w' = note (sql name) w in
    if x.fails w'.log || breaks w.db
    then (err infra, w')
    else (ok tt, record w' { db = f (x.clock w'.log) w.db })

abbrev pub now : Action ℕ
now = read (λ x l. x.clock l) clock_read

abbrev pub new_uuid : Action ℕ
new_uuid = read (λ x l. x.uuid l) uuid_new

abbrev pub uuid_text : ℕ → Action String
uuid_text id x w = (ok (x.uuid_string id), w)
