-- ===== src/Admin/Listings.antt =====
-- internal/admin/handler.go: the lists of the users and of the payment channels.
use nexium_storage_back.Shared.{
  ℕ, Bool, not, ◌&&◌, ◌||◌, String, Option, none, some, List, [], ◌∷◌, ◌++◌, ◌==◌, ◌=s=◌, select_by,
  sort_by, map, gtb_ℤ, ℤ, if◌then◌else◌,
}
use nexium_storage_back.World.{User, Project, PaymentChannel, Db, Action, query, query_rows}
use nexium_storage_back.Usage.{
  Row, rows_of_buckets, or_null, buckets_of, sum_sizes, count_distinct, file_id,
}
use nexium_storage_back.Admin.Channels.{or_blank}

-- The rows of the joins of a user: a user without a project has one row of `NULL`s.
abbrev pub UserRow : Type 0
UserRow = Option ℕ × Row

unfoldable pub project_rows : Db → List Project → List UserRow
project_rows db [] = []
project_rows db (p ∷ ps) =
    map (λ (r : Row). (some p.id, r)) (or_null (rows_of_buckets db.files (buckets_of db p)))
    ++ project_rows db ps

abbrev pub or_no_project : List UserRow → List UserRow
or_no_project [] = (none, (none, none)) ∷ []
or_no_project (r ∷ rs) = r ∷ rs

abbrev pub projects_of : Db → ℕ → List Project
projects_of db user_id = select_by (λ (p : Project). p.user_id == user_id) db.projects

abbrev user_rows : Db → ℕ → List UserRow
user_rows db user_id = or_no_project (project_rows db (projects_of db user_id))

pub record AdminUser : Type 0 where
  pub id : ℕ
  pub name : String
  pub email : String
  pub is_admin : Bool
  pub is_super_admin : Bool
  pub last_active_at : Option ℕ
  pub storage_quota_bytes : Option ℤ
  pub project_count : ℕ
  pub file_count : ℕ
  pub storage_bytes : ℕ

abbrev pub admin_user : Db → User → AdminUser
admin_user db u =
    let rows = user_rows db u.id in
    record {
      id = u.id;
      name = u.name;
      email = u.email;
      is_admin = u.is_admin;
      is_super_admin = u.is_super_admin;
      last_active_at = u.last_active_at;
      storage_quota_bytes = u.storage_quota_bytes;
      project_count = count_distinct (map (λ (r : UserRow). r.0) rows);
      file_count = count_distinct (map (λ (r : UserRow). file_id r.1) rows);
      storage_bytes = sum_sizes (map (λ (r : UserRow). r.1) rows);
    }

-- `ORDER BY u.created_at DESC`, a column that the rows here do not have, is a parameter.
unfoldable pub users : (User → User → Bool) → Action (List AdminUser)
users newer = query_rows "admin.users" (λ _ db. map (admin_user db) (sort_by newer db.users))

-- `COALESCE(logo_url, '')` and `COALESCE(maintenance_note, '')` of the row.
pub record ChannelRow : Type 0 where
  pub channel : PaymentChannel
  pub logo_url : String
  pub maintenance_note : String

abbrev row_of : PaymentChannel → ChannelRow
row_of c = record {
  channel = c;
  logo_url = or_blank c.logo_url;
  maintenance_note = or_blank c.maintenance_note;
}

-- `display_order ASC, name ASC`, for the collation of the database.
abbrev by_order : (String → String → Bool) → PaymentChannel → PaymentChannel → Bool
by_order before c d =
    gtb_ℤ d.display_order c.display_order
    || (not (gtb_ℤ c.display_order d.display_order) && before c.name d.name)

-- With the country before them, where none is asked for.
abbrev by_country : (String → String → Bool) → PaymentChannel → PaymentChannel → Bool
by_country before c d =
    before c.country_code d.country_code
    || (not (before d.country_code c.country_code) && by_order before c d)

unfoldable list_all_channels : (String → String → Bool) → String → Action (List ChannelRow)
list_all_channels before country = query "admin.listAllChannels" (λ _ db. map row_of (
    if country =s= ""
    then sort_by (by_country before) db.payment_channels
    else sort_by (by_order before)
        (select_by (λ (c : PaymentChannel). c.country_code =s= country) db.payment_channels)))

-- internal/billing/handler.go: `listChannels`, which anyone may call.
unfoldable list_channels : (String → String → Bool) → String → Action (List ChannelRow)
list_channels before country = query "billing.listChannels" (λ _ db. map row_of (
    sort_by (by_order before) (
      if country =s= ""
      then db.payment_channels
      else select_by (λ (c : PaymentChannel). c.country_code =s= country) db.payment_channels)))
