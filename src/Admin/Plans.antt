-- ===== src/Admin/Plans.antt =====
-- internal/admin/handler.go: `updatePlan`, a statement for each column that is given.
use nexium_storage_back.Shared.{
  ℕ, Bool, String, Option, none, some, List, ◌==◌, ltb, if◌then◌else◌, [], ◌∷◌, update_where, ℤ,
}
use nexium_storage_back.World.{Plan, Action, pure, ◌>>◌, query, exec}
use nexium_storage_back.Admin.Accounts.{log_async}

pub record PlanUpdate : Type 0 where
  pub price_xof : Option ℕ
  pub storage_bytes : Option ℕ
  pub max_file_bytes : Option ℕ
  pub max_projects : Option ℤ
  pub addons_enabled : Option Bool
  pub is_active : Option Bool

-- `if req.X != nil { if _, err := h.db.Exec(...); err != nil { return } }`
unfoldable set_column {ℓ} :
    {A : Type ℓ} → ℕ → String → (A → Plan → Plan) → Option A → Action (Unit {0})
set_column id column change none = pure tt
set_column id column change (some a) =
    exec column
      (λ _ db. record db { plans = update_where (λ (p : Plan). p.id == id) (change a) db.plans })

unfoldable update_plan : ℕ → ℕ → PlanUpdate → Action (Unit {0})
update_plan actor_id id req = do
  set_column id "admin.plan.price_xof" (λ n p. record p { price_xof = n }) req.price_xof
  set_column id "admin.plan.storage_bytes" (λ n p. record p { storage_bytes = n }) req.storage_bytes
  set_column id "admin.plan.max_file_bytes" (λ n p. record p { max_file_bytes = n })
      req.max_file_bytes
  set_column id "admin.plan.max_projects" (λ n p. record p { max_projects = n }) req.max_projects
  set_column id "admin.plan.addons_enabled" (λ b p. record p { addons_enabled = b })
      req.addons_enabled
  set_column id "admin.plan.is_active" (λ b p. record p { is_active = b }) req.is_active
  log_async actor_id "admin.billing.plan.update"

-- `ORDER BY price_xof ASC`
unfoldable insert_plan : Plan → List Plan → List Plan
insert_plan p [] = p ∷ []
insert_plan p (q ∷ qs) = if ltb q.price_xof p.price_xof then q ∷ insert_plan p qs else p ∷ q ∷ qs

unfoldable cheapest_first : List Plan → List Plan
cheapest_first [] = []
cheapest_first (p ∷ ps) = insert_plan p (cheapest_first ps)

unfoldable list_plans : Action (List Plan)
list_plans = query "admin.listPlans" (λ _ db. cheapest_first db.plans)
