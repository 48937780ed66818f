-- ===== src/Http/Files.antt =====
-- internal/files/handler.go: the routes on files, for a user (JWT) and for an API key.
use nexium_storage_back.Shared.{
  ℕ, ◌||◌, String, Option, none, some, ◌=s=◌, ltb, if◌then◌else◌, ℤ, Error, unauthorized,
  bad_request, not_found, Result, ok, err,
}
use nexium_storage_back.World.{Action, spawn, pure, raise, ◌>>=◌, ◌>>◌, read, raise_if}
use nexium_storage_back.Files.{
  FileInfo, PresignData, PagedFiles, Service, upload, list_files, get_download_url, rename, delete,
  presign_upload, confirm_upload, stream_file, stream_public_file,
}
use nexium_storage_back.Middleware.{Context, require_bucket_scope}

abbrev pub required {ℓ} : {A : Type ℓ} → Error → Option A → Action A
required e none = raise e
required e (some a) = pure a

-- `mw.GetUserID`, and `uuid.Parse` of the parameter of the URL.
abbrev pub user_of : Context → Action ℕ
user_of c = required unauthorized c.user_id

abbrev file_id_of : Option ℕ → Action ℕ
file_id_of id = required (bad_request "invalid file id") id

abbrev bucket_id_of : Option ℕ → Action ℕ
bucket_id_of id = required (bad_request "invalid bucket id") id

-- `h.log.Async(...)`, and `h.webhook.Fire(...)` where the context has a project: goroutines.
unfoldable pub log_and_fire : ℕ → Context → String → String → Action (Unit {0})
log_and_fire user_id c action event = do
  read {A = Unit {0}} (λ x l. tt) (spawn action user_id)
  elim c.project_id [ none ↦ pure tt | some p ↦ read (λ x l. tt) (spawn event p) ]

-- What the multipart form has: the name, the content type and the size.
pub record Form : Type 0 where
  pub filename : String
  pub content_type : String
  pub size : ℕ

abbrev mime_of : Form → String
mime_of f = if f.content_type =s= "" then "application/octet-stream" else f.content_type

-- An error is a body that is too large, an invalid form, or a missing field.
unfoldable pub upload_route : Service → Context → Option ℕ → Result Form → Action FileInfo
upload_route s c bucket parsed = do
  user_id ← user_of c
  bucket_id ← bucket_id_of bucket
  form ← elim parsed [ ok f ↦ pure f | err e ↦ raise e ]
  f ← upload s user_id bucket_id form.filename (mime_of form) form.size
  log_and_fire user_id c "file.upload" "file.created"
  pure f

-- The search is trimmed; a page that is no number is 0.
unfoldable pub list_route : Service → Context → Option ℕ → String → ℤ → ℤ → Action PagedFiles
list_route s c bucket search page per_page = do
  user_id ← user_of c
  bucket_id ← bucket_id_of bucket
  list_files s user_id bucket_id (s.trim_space search) page per_page

unfoldable pub download_route : Context → Option ℕ → Action String
download_route c file = do user_id ← user_of c; id ← file_id_of file; get_download_url user_id id

-- A name that is missing is the empty text.
unfoldable pub rename_route : Service → Context → Option ℕ → String → Action FileInfo
rename_route s c file filename = do
  user_id ← user_of c
  id ← file_id_of file
  raise_if (filename =s= "") (bad_request "filename is required")
  f ← rename s user_id id filename
  log_and_fire user_id c "file.rename" "file.renamed"
  pure f

unfoldable pub delete_route : Context → Option ℕ → Action (Unit {0})
delete_route c file = do
  user_id ← user_of c
  id ← file_id_of file
  delete user_id id
  log_and_fire user_id c "file.delete" "file.deleted"

unfoldable pub presign_route : Service → Context → Option ℕ → String → String → Action PresignData
presign_route s c bucket filename mime_type = do
  user_id ← user_of c
  bucket_id ← bucket_id_of bucket
  raise_if (filename =s= "" || mime_type =s= "") (bad_request "filename and mime_type are required")
  presign_upload s user_id bucket_id filename mime_type

pub record ConfirmRequest : Type 0 where
  -- `uuid.Nil` is none
  pub file_id : Option ℕ
  pub object_key : String
  pub filename : String
  pub mime_type : String
  pub size_bytes : ℕ

-- No hook is fired.
unfoldable pub confirm_route : Service → Context → Option ℕ → ConfirmRequest → Action FileInfo
confirm_route s c bucket req = do
  user_id ← user_of c
  bucket_id ← bucket_id_of bucket
  file_id ← required (bad_request "file_id and object_key are required") req.file_id
  raise_if (req.object_key =s= "") (bad_request "file_id and object_key are required")
  f ←
      confirm_upload s user_id bucket_id file_id req.object_key req.filename req.mime_type
        req.size_bytes
  read {A = Unit {0}} (λ x l. tt) (spawn "file.upload" user_id)
  pure f

-- The headers of a response with a body.
pub record Stream : Type 0 where
  pub content_type : String
  pub content_disposition : Option String
  pub content_length : Option ℕ
  pub cache_control : String

abbrev stream_of : String → String × ℕ → Stream
stream_of cache_control object = record {
  content_type = object.0;
  content_disposition = if object.0 =s= "image/svg+xml" then some "attachment" else none;
  content_length = if ltb 0 object.1 then some object.1 else none;
  cache_control = cache_control;
}

unfoldable pub stream_route : Context → Option ℕ → Action Stream
stream_route c file = do
  user_id ← user_of c
  id ← file_id_of file
  object ← stream_file user_id id
  pure (stream_of "private, max-age=3600" object)

unfoldable public_download_route : Option ℕ → Action Stream
public_download_route file = do
  id ← required not_found file
  object ← stream_public_file id
  pure (stream_of "public, max-age=3600" object)

-- `ExtBucketRoutes`, behind the middlewares of the external API: the scope of the key, then the
-- handler.
unfoldable ext_bucket_route {ℓ} :
    {A : Type ℓ} → Option ℕ → (Context → Action A) → Context → Action A
ext_bucket_route bucket route c = elim (require_bucket_scope c bucket) [
  | ok a ↦ route c
  | err e ↦ raise e
]

-- `ExtFileRoutes`, behind the same middlewares: the handler, with no guard of its own.
unfoldable pub ext_file_route {ℓ} : {A : Type ℓ} → (Context → Action A) → Context → Action A
ext_file_route route = route
