-- ===== src/Projects/Store.antt =====
-- internal/projects/store.go: the SQL statements on the table `projects`.
use nexium_storage_back.Shared.{
  ℕ, Bool, not, ◌&&◌, String, Option, List, ◌∷◌, ◌==◌, ◌=s=◌, find_by, any_by, select_by,
  update_where, delete_where, if◌then◌else◌,
}
use nexium_storage_back.World.{
  Project, Bucket, File, ApiKey, Webhook, WebhookDelivery, Db, Action, query, exec, exec_unique,
}

abbrev pub is_of : ℕ → ℕ → Project → Bool
is_of id user_id p = p.id == id && p.user_id == user_id

abbrev pub has_slug : ℕ → String → Project → Bool
has_slug user_id slug p = p.user_id == user_id && p.slug =s= slug

-- `(user_id, slug)` is `UNIQUE` (migrations/007_indexes.sql).
unfoldable pub create_row : Project → Action (Unit {0})
create_row p =
    exec_unique "projects.Create" (λ db. any_by (has_slug p.user_id p.slug) db.projects)
      (λ _ db. record db { projects = p ∷ db.projects })

unfoldable pub get_by_id : ℕ → ℕ → Action (Option Project)
get_by_id id user_id = query "projects.GetByID" (λ _ db. find_by (is_of id user_id) db.projects)

-- The rows are kept newest first, in the order in which they were created.
unfoldable pub list_by_user : ℕ → Action (List Project)
list_by_user user_id =
    query "projects.ListByUser"
      (λ _ db. select_by (λ (p : Project). p.user_id == user_id) db.projects)

unfoldable pub update_row : Project → Action (Unit {0})
update_row p =
    exec_unique "projects.Update"
      (λ db.
        any_by (is_of p.id p.user_id) db.projects
        && any_by (λ (q : Project). not (q.id == p.id) && has_slug p.user_id p.slug q) db.projects)
      (λ _ db. record db {
        projects =
            update_where (is_of p.id p.user_id) (λ q. record q { name = p.name; slug = p.slug })
              db.projects;
      })

abbrev pub is_in_bucket_of : ℕ → List Bucket → ℕ → Bool
is_in_bucket_of project_id buckets bucket_id =
    any_by (λ (b : Bucket). b.id == bucket_id && b.project_id == project_id) buckets

abbrev is_on_hook_of : ℕ → List Webhook → ℕ → Bool
is_on_hook_of project_id hooks hook_id =
    any_by (λ (h : Webhook). h.id == hook_id && h.project_id == project_id) hooks

-- What hangs on the project goes with it: `ON DELETE CASCADE` (migrations/001_initial.sql and
-- 008_webhooks.sql).
abbrev pub without_project : ℕ → ℕ → Db → Db
without_project id user_id db = record db {
  projects = delete_where (is_of id user_id) db.projects;
  buckets = delete_where (λ (b : Bucket). b.project_id == id) db.buckets;
  files = delete_where (λ (f : File). is_in_bucket_of id db.buckets f.bucket_id) db.files;
  api_keys = delete_where (λ (k : ApiKey). k.project_id == id) db.api_keys;
  webhooks = delete_where (λ (h : Webhook). h.project_id == id) db.webhooks;
  webhook_deliveries =
      delete_where (λ (d : WebhookDelivery). is_on_hook_of id db.webhooks d.webhook_id)
        db.webhook_deliveries;
}

unfoldable pub delete_row : ℕ → ℕ → Action (Unit {0})
delete_row id user_id =
    exec "projects.Delete"
      (λ _ db. if any_by (is_of id user_id) db.projects then without_project id user_id db else db)
