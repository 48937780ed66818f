-- ===== src/Logs/Store.antt =====
-- internal/logs/store.go: the rows of the activity log, and their list.
use Prim.Native.Char.{code}
use Prim.Native.String.{[] as []ₛ, ◌∷◌ as ◌∷ₛ◌, ◌++◌ as ◌+s◌}
use nexium_storage_back.Shared.{
  ℕ, ◌≡◌, refl, Bool, true, false, ◌&&◌, ◌||◌, String, Option, none, some, List, [], ◌∷◌, ◌==◌,
  ◌=s=◌, ltb, if◌then◌else◌, find_by, take,
}
use nexium_storage_back.World.{User, ActivityLog, Action, ◌>>=◌, query, exec, new_uuid}

-- The statement of the goroutine that `Async` starts. The rows are kept newest first, in the order in
-- which they were inserted.
unfoldable pub insert_log : ℕ → String → String → String → Action (Unit {0})
insert_log user_id action resource_type resource_id = do
  id ← new_uuid
  exec "logs.Async" (λ t db. record db {
    activity_logs =
        record {
          id = id;
          user_id = user_id;
          action = action;
          resource_type = resource_type;
          resource_id = resource_id;
          created_at = t;
        }
        ∷ db.activity_logs;
  })

pub record Filter : Type 0 where
  pub user_id : Option ℕ
  pub action : String
  pub limit : ℕ

-- The row with the columns of its user.
pub record Entry : Type 0 where
  pub row : ActivityLog
  pub user_name : String
  pub user_email : String
  pub is_admin : Bool
  pub is_super_admin : Bool

-- A part of a pattern: "%", "_", or the character itself.
pub data Token : Type 0 where
  any_text : Token
  any_char : Token
  exactly : ℕ → Token

abbrev token_of : ℕ → Token
token_of c = if c == 37 then any_text else if c == 95 then any_char else exactly c

-- The pattern of a `LIKE`, read after a backslash (92) or not. A backslash at the end is left out.
unfoldable pub tokens : Bool → String → List Token
tokens escaped []ₛ = []
tokens true (c ∷ₛ p) = exactly (code c) ∷ tokens false p
tokens false (c ∷ₛ p) =
    let rest = tokens (code c == 92) p in if code c == 92 then rest else token_of (code c) ∷ rest

unfoldable pub matches : List Token → String → Bool
matches [] []ₛ = true
matches [] (d ∷ₛ s) = false
matches (any_text ∷ ts) []ₛ = matches ts []ₛ
matches (any_text ∷ ts) (d ∷ₛ s) = matches ts (d ∷ₛ s) || matches (any_text ∷ ts) s
matches (any_char ∷ ts) []ₛ = false
matches (any_char ∷ ts) (d ∷ₛ s) = matches ts s
matches (exactly c ∷ ts) []ₛ = false
matches (exactly c ∷ ts) (d ∷ₛ s) = c == code d && matches ts s

abbrev pub like : String → String → Bool
like text pattern = matches (tokens false pattern) text

-- 200 where the limit is out of its range, 1 to 500.
abbrev pub limit_of : ℕ → ℕ
limit_of limit = if limit == 0 || ltb 500 limit then 200 else limit

abbrev pub is_user : Option ℕ → ActivityLog → Bool
is_user none a = true
is_user (some id) a = a.user_id == id

-- The clauses of the `WHERE`, where the filter gives them.
abbrev pub is_asked : Filter → ActivityLog → Bool
is_asked f a = is_user f.user_id a && (f.action =s= "" || like a.action (f.action +s "%"))

abbrev pub entry_of : ActivityLog → User → Entry
entry_of a u = record {
  row = a;
  user_name = u.name;
  user_email = u.email;
  is_admin = u.is_admin;
  is_super_admin = u.is_super_admin;
}

-- `ORDER BY created_at DESC`
unfoldable pub insert_entry : Entry → List Entry → List Entry
insert_entry e [] = e ∷ []
insert_entry e (d ∷ ds) =
    let later = insert_entry e ds in
    if ltb e.row.created_at d.row.created_at then d ∷ later else e ∷ d ∷ ds

-- `JOIN users u ON u.id = al.user_id`, with the condition and the order.
unfoldable pub entries_of : Filter → List User → List ActivityLog → List Entry
entries_of f us [] = []
entries_of f us (a ∷ rows) =
    let rest = entries_of f us rows in
    elim (find_by (λ (u : User). u.id == a.user_id) us) [
      | none ↦ rest
      | some u ↦ if is_asked f a then insert_entry (entry_of a u) rest else rest
    ]

unfoldable pub list : Filter → Action (List Entry)
list f =
    query "logs.List" (λ _ db. take (limit_of f.limit) (entries_of f db.users db.activity_logs))

-- internal/admin/handler.go: `listLogs` reads a limit of the query where it is a number above 0.
unfoldable filter_of : (String → Option ℕ) → Option ℕ → String → String → Filter
filter_of parse_uuid limit action user_id = record {
  user_id = if user_id =s= "" then none else parse_uuid user_id;
  action = action;
  limit = elim limit [ none ↦ 200 | some n ↦ if ltb 500 n then 500 else if n == 0 then 200 else n ];
}

unfoldable list_logs : Option ℕ → String → String → Action (List Entry)
list_logs limit action user_id x w = list (filter_of x.parse_uuid limit action user_id) x w

like_example : like "user.login" ("user_" +s "%") ≡ true
unfolding matches tokens
like_example = refl
