-- ===== src/Files/Operations/Uploads.antt =====
-- internal/files/service.go: the two ways in which a file is stored.
use Prim.Native.String.{◌++◌ as ◌+s◌}
use text.Mathlib.Text.{starts_with}
use nexium_storage_back.Shared.{
  ℕ, ◌*◌, Bool, false, not, String, if◌then◌else◌, bad_request, not_found, Result, ok, err,
}
use nexium_storage_back.World.{
  Action, r2_put, r2_delete, r2_head, r2_presign_put, pure, raise, attempt, ◌>>=◌, ◌>>◌, raise_if,
  call, ask, now, new_uuid, uuid_text,
}
use nexium_storage_back.Files.Model.{FileInfo, PresignData, allowed_mime_types}
use nexium_storage_back.Files.Store.{create}
use nexium_storage_back.Files.Operations.Checks.{
  Service, public_file_url, check_quota, check_file_size,
}

-- `fmt.Sprintf("%s/%s/%s_%s", bucketID, fileID, fileID, filename)`
unfoldable pub new_object_key : ℕ → ℕ → String → Action String
new_object_key bucket_id file_id filename = do
  b ← uuid_text bucket_id
  f ← uuid_text file_id
  pure (b +s ("/" +s (f +s ("/" +s (f +s ("_" +s filename))))))

-- `if isPublic { f.URL = s.publicFileURL(...) }`
abbrev pub with_url : Service → FileInfo → Bool → Action FileInfo
with_url s info is_public =
    if is_public
    then (do
      url ← public_file_url s info.row.id info.row.object_key
      pure (record info { url = url }))
    else pure info

-- The row is stored, or the object is deleted again.
unfoldable pub store_or_clean_up : FileInfo → Action FileInfo
unfolding create
store_or_clean_up info = do
  stored ← attempt (create info.row)
  elim stored [
    | ok _ ↦ pure info
    | err e ↦ attempt (call (r2_delete info.row.object_key)) >> raise e
  ]

abbrev new_file : ℕ → ℕ → String → String → String → ℕ → ℕ → FileInfo
new_file id bucket_id key filename mime_type size created_at = record {
  row = record {
    id = id;
    bucket_id = bucket_id;
    object_key = key;
    filename = filename;
    mime_type = mime_type;
    size_bytes = size;
    created_at = created_at;
  };
  url = "";
  bucket_is_public = false;
}

-- The part of `Upload` after its checks.
unfoldable pub put_and_store : Service → ℕ → Bool → String → String → ℕ → Action FileInfo
unfolding new_object_key public_file_url store_or_clean_up
put_and_store s bucket_id is_public filename mime_type size = do
  file_id ← new_uuid
  key ← new_object_key bucket_id file_id filename
  call (r2_put key size)
  created_at ← now
  info ← with_url s (new_file file_id bucket_id key filename mime_type size created_at) is_public
  store_or_clean_up info

unfoldable pub upload : Service → ℕ → ℕ → String → String → ℕ → Action FileInfo
upload s user_id bucket_id filename mime_type size = do
  raise_if (not (allowed_mime_types mime_type)) (bad_request "mime type is not allowed")
  check_file_size s user_id size
  check_quota s user_id size
  found ← s.check_bucket bucket_id user_id
  raise_if (not found.0) not_found
  put_and_store s bucket_id found.1 filename mime_type size

-- `presignTTL`, in seconds
abbrev presign_ttl : ℕ
presign_ttl = 15 * 60

unfoldable pub presign_upload : Service → ℕ → ℕ → String → String → Action PresignData
presign_upload s user_id bucket_id filename mime_type = do
  raise_if (not (allowed_mime_types mime_type)) (bad_request "mime type is not allowed")
  check_quota s user_id 0
  found ← s.check_bucket bucket_id user_id
  raise_if (not found.0) not_found
  file_id ← new_uuid
  key ← new_object_key bucket_id file_id filename
  url ← ask (λ x l. x.presigned_url l) (r2_presign_put key)
  pure (record { file_id = file_id; object_key = key; upload_url = url; expires_in = presign_ttl })

abbrev measured : Result ℕ → Action ℕ
measured (ok size) = pure size
measured (err e) = raise (bad_request "file not found in storage — upload may have failed")

unfoldable pub store_confirmed :
    Service → ℕ → ℕ → Bool → String → String → String → ℕ → Action FileInfo
unfolding public_file_url
store_confirmed s bucket_id file_id is_public object_key filename mime_type real_size = do
  created_at ← now
  info ←
      with_url s (new_file file_id bucket_id object_key filename mime_type real_size created_at)
        is_public
  create info.row
  pure info

-- The size that the client declares is an argument that nothing reads.
unfoldable pub confirm_upload : Service → ℕ → ℕ → ℕ → String → String → String → ℕ → Action FileInfo
unfolding store_confirmed
confirm_upload s user_id bucket_id file_id object_key filename mime_type size_bytes = do
  b ← uuid_text bucket_id
  f ← uuid_text file_id
  raise_if (not (starts_with object_key (b +s ("/" +s (f +s "/")))))
      (bad_request "invalid object key")
  size ← attempt (ask (λ x l. x.object_size l) (r2_head object_key))
  real_size ← measured size
  check_file_size s user_id real_size
  check_quota s user_id real_size
  found ← s.check_bucket bucket_id user_id
  raise_if (not found.0) not_found
  store_confirmed s bucket_id file_id found.1 object_key filename mime_type real_size
