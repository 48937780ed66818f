-- ===== src/Files/Operations/Reads.antt =====
-- internal/files/service.go: files that are there are renamed, read, listed and deleted.
use Prim.Native.String.{◌++◌ as ◌+s◌}
use nexium_storage_back.Shared.{
  ℕ, ◌-◌, ◌*◌, ◌||◌, String, none, some, List, [], ◌∷◌, ◌=s=◌, ltb, if◌then◌else◌, ℤ, pos, negsuc,
  bad_request, not_found,
}
use nexium_storage_back.World.{
  Action, r2_delete, r2_delete_prefix, r2_get, r2_presign_get, pure, raise, ◌>>=◌, ◌>>◌, raise_if,
  call, ask, uuid_text,
}
use nexium_storage_back.Files.Model.{FileInfo}
use nexium_storage_back.Files.Store.{
  get_by_id, get_by_id_public, list_by_bucket, count_by_bucket, rename_row, delete_row,
}
use nexium_storage_back.Files.Operations.Checks.{Service}
use nexium_storage_back.Files.Operations.Uploads.{with_url}

unfoldable pub rename : Service → ℕ → ℕ → String → Action FileInfo
rename s user_id id filename = do
  raise_if (s.trim_space filename =s= "") (bad_request "filename is required")
  found ← get_by_id id user_id
  elim found [
    | none ↦ raise not_found
    | some f ↦ (do
      rename_row id user_id (s.trim_space filename)
      with_url s (record f { row = record (f.row) { filename = s.trim_space filename } })
          f.bucket_is_public)
  ]

unfoldable delete_all_in_bucket : ℕ → Action (Unit {0})
delete_all_in_bucket bucket_id = do b ← uuid_text bucket_id; call (r2_delete_prefix (b +s "/"))

unfoldable pub get_download_url : ℕ → ℕ → Action String
get_download_url user_id id = do
  found ← get_by_id id user_id
  elim found [
    | none ↦ raise not_found
    | some f ↦ ask (λ x l. x.presigned_url l) (r2_presign_get f.row.object_key)
  ]

unfoldable pub get_public_download_url : ℕ → Action String
get_public_download_url id = do
  found ← get_by_id_public id
  elim found [
    | none ↦ raise not_found
    | some f ↦
        if f.bucket_is_public
        then ask (λ x l. x.presigned_url l) (r2_presign_get f.row.object_key)
        else raise not_found
  ]

-- `GetObject` of internal/storage/r2.go: the content type and the size.
unfoldable pub get_object : String → Action (String × ℕ)
get_object key =
    ask
      (λ x l. (
        if x.object_type l =s= "" then "application/octet-stream" else x.object_type l,
        x.object_size l,
      ))
      (r2_get key)

unfoldable pub stream_public_file : ℕ → Action (String × ℕ)
stream_public_file id = do
  found ← get_by_id_public id
  elim found [
    | none ↦ raise not_found
    | some f ↦ if f.bucket_is_public then get_object f.row.object_key else raise not_found
  ]

unfoldable pub stream_file : ℕ → ℕ → Action (String × ℕ)
stream_file user_id id = do
  found ← get_by_id id user_id
  elim found [ none ↦ raise not_found | some f ↦ get_object f.row.object_key ]

unfoldable pub delete : ℕ → ℕ → Action (Unit {0})
delete user_id id = do
  found ← get_by_id id user_id
  elim found [
    | none ↦ raise not_found
    | some f ↦ (do call (r2_delete f.row.object_key); delete_row id user_id)
  ]

pub record PagedFiles : Type 0 where
  pub files : List FileInfo
  pub total : ℕ
  pub page : ℕ
  pub per_page : ℕ

unfoldable with_urls : Service → List FileInfo → Action (List FileInfo)
with_urls s [] = pure []
with_urls s (f ∷ fs) = do
  f' ← with_url s f f.bucket_is_public
  fs' ← with_urls s fs
  pure (f' ∷ fs')

-- `if page < 1 { page = 1 }`, for the page that `strconv.Atoi` made a number.
abbrev clamp_page : ℤ → ℕ
clamp_page (pos n) = if ltb n 1 then 1 else n
clamp_page (negsuc n) = 1

abbrev clamp_per_page : ℤ → ℕ
clamp_per_page (pos n) = if ltb n 1 || ltb 100 n then 24 else n
clamp_per_page (negsuc n) = 24

-- `List` of the service.
unfoldable pub list_files : Service → ℕ → ℕ → String → ℤ → ℤ → Action PagedFiles
unfolding with_urls
list_files s user_id bucket_id search page per_page = do
  total ← count_by_bucket s.contains bucket_id user_id search
  rows ←
      list_by_bucket s.contains bucket_id user_id search (clamp_per_page per_page)
        ((clamp_page page - 1) * clamp_per_page per_page)
  files ← with_urls s rows
  pure (record {
    files = files;
    total = total;
    page = clamp_page page;
    per_page = clamp_per_page per_page;
  })
