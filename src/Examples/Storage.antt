-- ===== src/Examples/Storage.antt =====
-- Storage: files and their quota, at a concrete database.
use nexium_storage_back.Files.{Service as FileService}
use nexium_storage_back.Shared.{
  Bool, String, add_int64, any_by, arith, false, find_by, gtb_ℤ, pos, refl, sum_where, true, ◌≡◌,
  ◌+◌, ◌=s=◌, ◌∷◌,
}
use nexium_storage_back.World.{r2_head}
use nexium_storage_back.Files.{
  FileInfo, allowed_mime_types, bucket_owner, check_file_size, check_quota, check_usage,
  confirm_upload, create, delete, effective_quota, find_bucket, get_download_url, new_object_key,
  owned_by, public_file_url, put_and_store, rename, store_confirmed, store_or_clean_up, stream_file,
  total_bytes_by_user, total_storage_bytes_by_user, upload,
}
use nexium_storage_back.Files.Quota.{StoredOwn, upload_stores}
use nexium_storage_back.Files.Access.{Refused, RenameRefused, foreign_file-Refused}
use nexium_storage_back.Files.Confirm.{IsWithin, confirm_registers_real_size}
use nexium_storage_back.Server.{
  check_bucket, file_service, get_storage_quota, is_platform_locked, stored_quota,
}
use nexium_storage_back.Server.Laws.{file_service-ServiceLaws, quota_of, server_upload_within_quota}
use nexium_storage_back.Buckets.{get_by_id_and_user}
use nexium_storage_back.Billing.{
  find_plan, find_subscription, get_subscription_row, get_user_file_size_limit,
}
use nexium_storage_back.Examples.Fixtures.{fine, id_text, world}

abbrev trim : String → String
trim s = s

abbrev contains : String → String → Bool
contains a b = a =s= b

abbrev server : FileService
server = file_service (pos 1) "https://app" "" trim contains

abbrev registered : FileInfo
registered = record {
  row = record {
    id = 9;
    bucket_id = 7;
    object_key = "aaaaaaa/aaaaaaaaa/c.png";
    filename = "c.png";
    mime_type = "image/png";
    size_bytes = 10;
    created_at = 50000000;
  };
  url = "https://app/api/v1/public/files/aaaaaaaaa";
  bucket_is_public = false;
}

server_upload_within_quota_example :
    let s = file_service (pos 1) "https://app" "" trim contains in
    let db' = (upload s 1 7 "b.png" "image/png" 40 fine world).1.db in
    (total_bytes_by_user db' 1 ≡ total_bytes_by_user world.db 1 + 40)
    × (gtb_ℤ (pos (total_bytes_by_user db' 1)) (effective_quota s (quota_of world.db 1)) ≡ false)
unfolding upload check_file_size check_quota check_usage total_storage_bytes_by_user
    total_bytes_by_user sum_where owned_by bucket_owner find_bucket find_by put_and_store
    store_or_clean_up new_object_key public_file_url create allowed_mime_types any_by file_service
    check_bucket get_storage_quota stored_quota is_platform_locked quota_of add_int64
    get_user_file_size_limit get_subscription_row find_subscription find_plan get_by_id_and_user
server_upload_within_quota_example =
    server_upload_within_quota (pos 1) "https://app" "" trim contains 1 7 "b.png" "image/png" 40
      fine world refl refl (ground arith)

upload_stores_example :
    let (r, w') = upload server 1 7 "b.png" "image/png" 40 fine world in
    StoredOwn 1 7 40 world.db r w'.db
upload_stores_example =
    upload_stores server (file_service-ServiceLaws (pos 1) "https://app" "" trim contains) 1 7
      "b.png" "image/png" 40 fine world

confirm_registers_real_size_example :
    let db' =
      (confirm_upload server 1 7 9 "aaaaaaa/aaaaaaaaa/c.png" "c.png" "image/png" 1 fine
        world).1.db in
    (db' ≡ record (world.db) { files = registered.row ∷ world.db.files })
    × (registered.row.object_key ≡ "aaaaaaa/aaaaaaaaa/c.png")
    × (owned_by world.db 1 7 ≡ true)
    × (total_bytes_by_user db' 1
        ≡ total_bytes_by_user world.db 1
          + fine.object_size (r2_head "aaaaaaa/aaaaaaaaa/c.png" ∷ world.log))
    × IsWithin (total_bytes_by_user db' 1) (effective_quota server (quota_of world.db 1))
unfolding id_text confirm_upload check_file_size check_quota check_usage total_storage_bytes_by_user
    total_bytes_by_user sum_where owned_by bucket_owner find_bucket find_by store_confirmed
    public_file_url create file_service check_bucket get_storage_quota stored_quota
    is_platform_locked quota_of add_int64 get_user_file_size_limit get_subscription_row
    find_subscription find_plan get_by_id_and_user
confirm_registers_real_size_example =
    confirm_registers_real_size server
      (file_service-ServiceLaws (pos 1) "https://app" "" trim contains) 1 7 9
      "aaaaaaa/aaaaaaaaa/c.png" "c.png" "image/png" 1 fine world {i = registered} refl

foreign_file-Refused_example :
    Refused "files.GetByID" world (get_download_url 2 11 fine world)
    × Refused "files.GetByID" world (stream_file 2 11 fine world)
    × Refused "files.GetByID" world (delete 2 11 fine world)
    × RenameRefused (server.trim_space "n" =s= "") world (rename server 2 11 "n" fine world)
unfolding any_by owned_by bucket_owner find_bucket find_by
foreign_file-Refused_example = foreign_file-Refused server 2 11 "n" fine world refl
