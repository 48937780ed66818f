-- ===== src/Examples/Upkeep.antt =====
-- Buckets and the daily job, at a concrete database.
use nexium_storage_back.Shared.{◌∷◌, [], ◌≡◌}
use nexium_storage_back.Buckets.{matches_name}
use nexium_storage_back.Buckets.Naming.{is_described, matches_name-is_described}
use nexium_storage_back.Expiry.{delete_user_files}
use nexium_storage_back.Expiry.Deletion.{deletion_keeps_others, others_files}
use nexium_storage_back.Examples.Fixtures.{fine, world}

deletion_keeps_others_example :
    let w' = (delete_user_files 1 fine world).1 in
    (others_files world.db 1 w'.db.files ≡ others_files world.db 1 world.db.files)
    × (w'.db.buckets ≡ world.db.buckets)
    × (w'.db.projects ≡ world.db.projects)
    × (w'.db.subscriptions ≡ world.db.subscriptions)
deletion_keeps_others_example = deletion_keeps_others 1 fine world

matches_name-is_described_example :
    matches_name (97 ∷ 45 ∷ 98 ∷ []) ≡ is_described (97 ∷ 45 ∷ 98 ∷ [])
matches_name-is_described_example = matches_name-is_described (97 ∷ 45 ∷ 98 ∷ [])
