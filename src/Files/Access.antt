-- ===== src/Files/Access.antt =====
-- Who may read, rename and delete a file (internal/files/service.go).
use nexium_storage_back.Shared.{
  ℕ, ◌≡◌, ◌⊎◌, inl, inr, Bool, true, false, ◌=s=◌, bad_request, ◌&&◌, String, none, some, ◌∷◌, ◌==◌,
  Result, ok, err, infra, not_found, arith, any_by, delete_where, find_by-none, any_by-delete_where,
  Option-cases,
}
use nexium_storage_back.World.{File, Db, Ext, World, sql, r2_delete}
use nexium_storage_back.Files.Model.{FileInfo}
use nexium_storage_back.Files.Store.{
  bucket_owner, find_bucket, owned_by, lookup_owned, lookup_public, get_by_id, get_by_id_public,
  delete_row,
}
use nexium_storage_back.Files.Operations.{
  Service, get_download_url, get_public_download_url, stream_file, stream_public_file, rename,
  delete,
}

-- The user has a file of this id.
abbrev pub has_file : Db → ℕ → ℕ → Bool
has_file db u id = any_by (λ (f : File). f.id == id && owned_by db u f.bucket_id) db.files

lookup_owned-none : (db : Db) (u id : ℕ) → has_file db u id ≡ false → lookup_owned db id u ≡ none
unfolding lookup_owned
lookup_owned-none db u id h = rw (find_by-none _ _ h, lookup_owned)

-- The action ended in an error, wrote nothing, and made no call but the one statement.
abbrev pub Refused {ℓ} : {A : Type ℓ} → String → World → Result A × World → Type 0
Refused name w (ok a, w') = ⊥
Refused name w (err e, w') =
    ((e ≡ not_found) ⊎ (e ≡ infra)) × (w'.db ≡ w.db) × (w'.log ≡ sql name ∷ w.log)

-- A rename looks at the new name first: one that is blank is refused before any statement.
abbrev pub RenameRefused : Bool → World → Result FileInfo × World → Type 0
RenameRefused true w r = r ≡ (err (bad_request "filename is required"), w)
RenameRefused false w r = Refused "files.GetByID" w r

-- A user who does not own a file of the id gets no URL, no content and no rename or deletion: each
-- of the operations ends in an error, writes nothing and makes no call but the one statement that
-- looks for the file, so none to the object store; a rename to a blank name makes no call at all.
pub foreign_file-Refused :
    (s : Service) (u id : ℕ) (name : String) (x : Ext) (w : World)
    → has_file w.db u id ≡ false
    → Refused "files.GetByID" w (get_download_url u id x w)
      × Refused "files.GetByID" w (stream_file u id x w)
      × Refused "files.GetByID" w (delete u id x w)
      × RenameRefused (s.trim_space name =s= "") w (rename s u id name x w)
unfolding get_download_url stream_file delete rename get_by_id
foreign_file-Refused s u id name x w h =
    let e = lookup_owned-none w.db u id h in
    (ground (arith, e), ground (arith, e), ground (arith, e), ground (arith, e))

-- The file of the id lies in a bucket that is not public, or there is none.
abbrev is_public_file : Db → ℕ → Bool
is_public_file db id = elim (lookup_public db id) [ none ↦ false | some i ↦ i.bucket_is_public ]

-- Without authentication, only a file of a public bucket is served.
private_file-Refused :
    (id : ℕ) (x : Ext) (w : World)
    → is_public_file w.db id ≡ false
    → Refused "files.GetByIDPublic" w (get_public_download_url id x w)
      × Refused "files.GetByIDPublic" w (stream_public_file id x w)
unfolding get_public_download_url stream_public_file get_by_id_public
private_file-Refused id x w h = (ground arith, ground arith)

abbrev pub deleted : Db → ℕ → ℕ → Db
deleted db u id = record db {
  files = delete_where (λ (f : File). f.id == id && owned_by db u f.bucket_id) db.files;
}

pub has_file-delete_where : (db : Db) (u id : ℕ) → has_file (deleted db u id) u id ≡ false
unfolding owned_by bucket_owner find_bucket
has_file-delete_where db u id = any_by-delete_where _ db.files

-- A deletion that returns has asked the object store to delete the object of the row that it found,
-- and no row of the id is left to the user.
delete_removes :
    (u id : ℕ) (x : Ext) (w : World)
    → (delete u id x w).0 ≡ ok tt
    → (has_file (delete u id x w).1.db u id ≡ false)
      × ((i : FileInfo) × (lookup_owned w.db id u ≡ some i)
          × ((delete u id x w).1.log
              ≡ sql "files.Delete" ∷ r2_delete i.row.object_key ∷ sql "files.GetByID" ∷ w.log))
unfolding delete get_by_id delete_row
delete_removes u id x w h = elim (Option-cases (lookup_owned w.db id u)) [
  | inl e ↦ absurd (ground (arith, e))
  | inr (i, e) ↦ (ground (arith, e, has_file-delete_where w.db u id), (i, e, ground (arith, e)))
]
