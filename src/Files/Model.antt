-- ===== src/Files/Model.antt =====
-- internal/files/model.go: the file that the API returns, and the MIME types that are accepted.
use nexium_storage_back.Shared.{ℕ, Bool, String, List, [], ◌∷◌, any_by, ◌=s=◌}
use nexium_storage_back.World.{File}

-- `File`: the row, with the two fields that are no columns.
pub record FileInfo : Type 0 where
  pub row : File
  pub url : String
  pub bucket_is_public : Bool

pub record PresignData : Type 0 where
  pub file_id : ℕ
  pub object_key : String
  pub upload_url : String
  pub expires_in : ℕ

-- The keys of the map `AllowedMIMETypes`.
abbrev mime_types : List String
mime_types =
    "image/jpeg" ∷ "image/png" ∷ "image/gif" ∷ "image/webp" ∷ "image/svg+xml" ∷ "image/heic"
    ∷ "image/heif" ∷ "video/mp4" ∷ "video/webm" ∷ "video/quicktime" ∷ "video/x-msvideo"
    ∷ "video/mpeg" ∷ "video/3gpp" ∷ "video/x-matroska" ∷ "application/pdf" ∷ "text/plain"
    ∷ "text/csv" ∷ "application/zip" ∷ "application/json" ∷ "application/xml" ∷ "text/xml" ∷ []

unfoldable pub allowed_mime_types : String → Bool
unfolding any_by
allowed_mime_types mime_type = any_by (λ t. t =s= mime_type) mime_types
