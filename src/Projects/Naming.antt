-- ===== src/Projects/Naming.antt =====
-- The slugs of internal/projects/service.go, and the projects that share one.
use Prim.Native.String.{[] as []ₛ, ◌∷◌ as ◌∷ₛ◌}
use nexium_storage_back.Shared.{
  ℕ, ◌≡◌, refl, Bool, true, false, ◌||◌, String, ◌=s=◌, any_by, arith, infra, err, if◌then◌else◌,
}
use nexium_storage_back.World.{Ext, World}
use nexium_storage_back.Projects.Slugs.{
  Unicode, is_dash, is_empty, slug_of, trim_left, trim_right, slugify,
}
use nexium_storage_back.Projects.Store.{has_slug, create_row}
use nexium_storage_back.Projects.Operations.{Service, create}

-- Letters, digits and single characters "-" only.
abbrev IsSlug : Unicode → String → Type 0
IsSlug u []ₛ = Unit
IsSlug u (c ∷ₛ s) = ((u.is_alnum c || is_dash c) ≡ true) × IsSlug u s

abbrev starts_with_dash : String → Bool
starts_with_dash []ₛ = false
starts_with_dash (c ∷ₛ s) = is_dash c

abbrev ends_with_dash : String → Bool
ends_with_dash []ₛ = false
ends_with_dash (c ∷ₛ s) = if is_empty s then is_dash c else ends_with_dash s

slug_of-IsSlug : (u : Unicode) (s : String) → IsSlug u (slug_of u s)
unfolding slug_of
slug_of-IsSlug u []ₛ = tt
slug_of-IsSlug u (c ∷ₛ s) = ground (arith, slug_of-IsSlug u s)

trim_left-IsSlug : (u : Unicode) (s : String) → IsSlug u s → IsSlug u (trim_left s)
unfolding trim_left
trim_left-IsSlug u []ₛ h = tt
trim_left-IsSlug u (c ∷ₛ s) h = ground (arith, trim_left-IsSlug u s h.1)

trim_right-IsSlug : (u : Unicode) (s : String) → IsSlug u s → IsSlug u (trim_right s)
unfolding trim_right
trim_right-IsSlug u []ₛ h = tt
trim_right-IsSlug u (c ∷ₛ s) h = ground (arith, trim_right-IsSlug u s h.1)

trim_left-starts : (s : String) → starts_with_dash (trim_left s) ≡ false
unfolding trim_left
trim_left-starts []ₛ = refl
trim_left-starts (c ∷ₛ s) = ground (arith, trim_left-starts s)

trim_right-starts :
    (s : String) → starts_with_dash s ≡ false → starts_with_dash (trim_right s) ≡ false
unfolding trim_right
trim_right-starts []ₛ h = refl
trim_right-starts (c ∷ₛ s) h = ground arith

trim_right-ends : (s : String) → ends_with_dash (trim_right s) ≡ false
unfolding trim_right
trim_right-ends []ₛ = refl
trim_right-ends (c ∷ₛ s) = ground (arith, trim_right-ends s)

-- A slug has letters, digits and "-" only, and "-" neither first nor last.
slugify-IsSlug :
    (u : Unicode) (name : String)
    → IsSlug u (slugify u name)
      × (starts_with_dash (slugify u name) ≡ false)
      × (ends_with_dash (slugify u name) ≡ false)
unfolding slugify
slugify-IsSlug u name =
    let s = slug_of u (u.to_lower name) in
    (
      trim_right-IsSlug u (trim_left s) (trim_left-IsSlug u s (slug_of-IsSlug u (u.to_lower name))),
      trim_right-starts (trim_left s) (trim_left-starts s),
      trim_right-ends (trim_left s),
    )

-- A project whose name makes the slug of another project of the user is not created, and the answer
-- is no API error but an internal one.
create_same_slug :
    (s : Service) (user_id : ℕ) (name : String) (x : Ext) (w : World)
    → (s.trim_space name =s= "") ≡ false
    → any_by (has_slug user_id (slugify s.unicode (s.trim_space name))) w.db.projects ≡ true
    → ((create s user_id name x w).0 ≡ err infra) × ((create s user_id name x w).1.db ≡ w.db)
unfolding create create_row
create_same_slug s user_id name x w named taken = ground arith
