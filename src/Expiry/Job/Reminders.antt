-- ===== src/Expiry/Job/Reminders.antt =====
-- internal/expiry/job.go: the reminders before the end of a period and of its grace.
use nexium_storage_back.Shared.{
  ℕ, ◌+◌, ◌*◌, Bool, false, ◌&&◌, String, Option, none, some, List, [], ◌∷◌, ◌==◌, ◌=s=◌, leb,
  find_by, select_by, update_where,
}
use nexium_storage_back.World.{
  User, Subscription, Db, Action, mail, ignore, ◌>>=◌, ◌>>◌, call, query, exec,
}
use nexium_storage_back.Billing.{find_plan}
use nexium_storage_back.Expiry.Job.Loops.{day, for_each, is_null}

-- A reminder: its days, its window in days from now, and its column.
pub record Reminder : Type 0 where
  pub days : ℕ
  pub window : ℕ × ℕ
  pub column : Subscription → Option ℕ
  pub with_column : Option ℕ → Subscription → Subscription

unfoldable pub expiry_reminders : List Reminder
expiry_reminders =
    record {
      days = 10;
      window = (9, 11);
      column = λ s. s.reminded_10d_at;
      with_column = λ t s. record s { reminded_10d_at = t };
    }
    ∷ record {
      days = 5;
      window = (4, 6);
      column = λ s. s.reminded_5d_at;
      with_column = λ t s. record s { reminded_5d_at = t };
    }
    ∷ record {
      days = 2;
      window = (1, 3);
      column = λ s. s.reminded_2d_at;
      with_column = λ t s. record s { reminded_2d_at = t };
    }
    ∷ []

unfoldable pub grace_reminders : List Reminder
grace_reminders =
    record {
      days = 15;
      window = (14, 16);
      column = λ s. s.grace_reminded_15d_at;
      with_column = λ t s. record s { grace_reminded_15d_at = t };
    }
    ∷ record {
      days = 7;
      window = (6, 8);
      column = λ s. s.grace_reminded_7d_at;
      with_column = λ t s. record s { grace_reminded_7d_at = t };
    }
    ∷ record {
      days = 1;
      window = (0, 2);
      column = λ s. s.grace_reminded_1d_at;
      with_column = λ t s. record s { grace_reminded_1d_at = t };
    }
    ∷ []

-- `BETWEEN now() + interval '...' AND now() + interval '...'`
abbrev pub is_within : ℕ × ℕ → ℕ → Option ℕ → Bool
is_within window t none = false
is_within window t (some end) = leb (t + window.0 * day) end && leb end (t + window.1 * day)

-- The status, and the date that the reminder is about.
abbrev pub is_due : String → (Subscription → Option ℕ) → Reminder → ℕ → Subscription → Bool
is_due status date r t s =
    s.status =s= status && (is_within r.window t (date s) && is_null (r.column s))

-- `JOIN users`, `JOIN plans`: the user and the address.
unfoldable pub addresses : Db → List Subscription → List (ℕ × String)
addresses db [] = []
addresses db (s ∷ ss) = elim (find_by (λ (u : User). u.id == s.user_id) db.users) [
  | none ↦ addresses db ss
  | some u ↦ elim (find_plan db s.plan_id) [
    | none ↦ addresses db ss
    | some p ↦ (s.user_id, u.email) ∷ addresses db ss
  ]
]

unfoldable pub remind_one : Reminder → ℕ × String → Action (Unit {0})
remind_one r e = do
  call (mail "reminder" e.1)
  ignore (
      exec "expiry.reminded" (λ t db. record db {
        subscriptions =
            update_where (λ (s : Subscription). s.user_id == e.0) (r.with_column (some t))
              db.subscriptions;
      }))

unfoldable pub remind : String → (Subscription → Option ℕ) → Reminder → Action (Unit {0})
remind status date r = do
  due ←
      query "expiry.remind"
        (λ t db. addresses db (select_by (is_due status date r t) db.subscriptions))
  for_each (remind_one r) due

unfoldable pub remind_expiring_subscriptions : Action (Unit {0})
remind_expiring_subscriptions =
    for_each (remind "active" (λ s. s.current_period_end)) expiry_reminders

unfoldable pub remind_grace_period_users : Action (Unit {0})
remind_grace_period_users = for_each (remind "expired" (λ s. s.data_grace_end)) grace_reminders
