-- ===== src/Storage/Client.antt =====
-- internal/storage/r2.go: what the client makes of the answers of the S3 library.
use Prim.Native.String.{◌++◌ as ◌+s◌}
use nexium_storage_back.Shared.{
  ℕ, zero, suc, ◌+◌, ◌-◌, String, Option, none, some, List, [], ◌∷◌, ◌++◌, ◌=s=◌, ltb, length, take,
  drop, if◌then◌else◌, Result, ok, err,
}

-- `PublicURL`, for the public URL of the configuration.
unfoldable pub public_url : String → String → String
public_url base key = if base =s= "" then "" else base +s ("/" +s key)

abbrev text_or : String → Option String → String
text_or other none = other
text_or other (some t) = if t =s= "" then other else t

abbrev size_or_zero : Option ℕ → ℕ
size_or_zero none = 0
size_or_zero (some n) = n

-- `GetObject`: the content type and the length, which the answer may not have.
unfoldable object_of : Option String → Option ℕ → String × ℕ
object_of content_type size = (text_or "application/octet-stream" content_type, size_or_zero size)

-- The keys of an object store under a prefix, page by page, and its answer to a deletion of keys.
pub record ObjectStore : Type 0 where
  pub pages : String → List (Result (List String))
  pub delete_objects : List String → Result (Unit {0})

-- The loop over the pages: an error ends it.
unfoldable pub collect : List (Result (List String)) → List String → Result (List String)
collect [] found = ok found
collect (ok page ∷ pages) found = collect pages (found ++ page)
collect (err e ∷ pages) found = err e

abbrev pub batch_size : ℕ
batch_size = 1000

-- `toDelete[i:end]`
abbrev pub batch_at : ℕ → List String → List String
batch_at i keys =
    let end = if ltb (length keys) (i + batch_size) then length keys else i + batch_size in
    take (end - i) (drop i keys)

-- The loop over the batches: what is sent, and how it ends. One round for each key is enough.
unfoldable pub delete_batches :
    ℕ → (List String → Result (Unit {0})) → ℕ → List String → List (List String) × Result (Unit {0})
delete_batches zero answer i keys = ([], ok tt)
delete_batches (suc rounds) answer i keys =
    let batch = batch_at i keys in
    let (sent, r) = delete_batches rounds answer (i + batch_size) keys in
    if ltb i (length keys)
    then (elim (answer batch) [ ok done ↦ (batch ∷ sent, r) | err e ↦ (batch ∷ [], err e) ])
    else ([], ok tt)

abbrev delete_found :
    (List String → Result (Unit {0}))
    → Result (List String)
    → List (List String) × Result (Unit {0})
delete_found answer (ok keys) = delete_batches (length keys) answer 0 keys
delete_found answer (err e) = ([], err e)

-- `DeleteByPrefix`
unfoldable pub delete_by_prefix : ObjectStore → String → List (List String) × Result (Unit {0})
delete_by_prefix s prefix = delete_found s.delete_objects (collect (s.pages prefix) [])
