-- ===== src/World/Keeps.antt =====
-- What an action keeps true of the tables, whatever the outside answers: the statements one by one,
-- then their compositions.
use nexium_storage_back.Shared.{
  ℕ, ◌≡◌, Bool, true, false, String, ◌∷◌, inl, inr, Bool-cases, if◌then◌else◌, Error, Result, ok,
  err,
}
use nexium_storage_back.World.Tables.{Db}
use nexium_storage_back.World.Actions.{
  Event, Log, Ext, World, Action, pure, raise, attempt, ◌>>=◌, raise_if, ignore, call, ask, read,
  query, exec, exec_unique, sql,
}

module _ (P : Db → Type 0) where
  abbrev pub Keeps {ℓ} : {A : Type ℓ} → Action A → Type 0
  Keeps {A = A} m = (x : Ext) (w : World) → P w.db → P (m x w).1.db

  pub raise_if-Keeps : (c : Bool) (e : Error) → Keeps (raise_if c e)
  raise_if-Keeps c e x w p = p

  pub raise-Keeps {ℓ} : (A : Type ℓ) (e : Error) → Keeps (raise {A = A} e)
  raise-Keeps A e x w p = p

  pub call-Keeps : (e : Event) → Keeps (call e)
  call-Keeps e x w p = p

  -- A statement whose change keeps the property.
  pub exec-Keeps :
      (name : String) (f : ℕ → Db → Db)
      → ((t : ℕ) (db : Db) → P db → P (f t db))
      → Keeps (exec name f)
  exec-Keeps name f k x w p = elim (Bool-cases (x.fails (sql name ∷ w.log))) [
    | inl e ↦ rw e p
    | inr e ↦ rw e (k _ w.db p)
  ]

  -- One whose change keeps it where no `UNIQUE` is broken.
  pub exec_unique-Keeps :
      (name : String) (breaks : Db → Bool) (f : ℕ → Db → Db)
      → ((t : ℕ) (db : Db) → breaks db ≡ false → P db → P (f t db))
      → Keeps (exec_unique name breaks f)
  exec_unique-Keeps name breaks f k x w p = elim (Bool-cases (x.fails (sql name ∷ w.log))) [
    | inl e ↦ rw e p
    | inr e ↦ elim (Bool-cases (breaks w.db)) [
      | inl b ↦ rw (e, b) p
      | inr b ↦ rw (e, b) (k _ w.db b p)
    ]
  ]

  module _ {ℓ} {A : Type ℓ} where
    pub pure-Keeps : (a : A) → Keeps (pure a)
    pure-Keeps a x w p = p

    pub ask-Keeps : (f : Ext → Log → A) (e : Event) → Keeps (ask f e)
    ask-Keeps f e x w p = p

    pub read-Keeps : (f : Ext → Log → A) (e : Event) → Keeps (read f e)
    read-Keeps f e x w p = p

    pub query-Keeps : (name : String) (f : ℕ → Db → A) → Keeps (query name f)
    query-Keeps name f x w p = p

    pub attempt-Keeps : (m : Action A) → Keeps m → Keeps (attempt m)
    attempt-Keeps m k x w p = k x w p

    pub ignore-Keeps : (m : Action A) → Keeps m → Keeps (ignore m)
    ignore-Keeps m k x w p = k x w p

  module _ {ℓ κ} {A : Type ℓ} {B : Type κ} where
    after-Keeps :
        (k : A → Action B) (r : Result A) (x : Ext) (w : World)
        → ((a : A) → Keeps (k a))
        → P w.db
        → P (elim r as (λ _. Result B × World) [ ok a ↦ k a x w | err e ↦ (err e, w) ]).1.db
    after-Keeps k (ok a) x w h p = h a x w p
    after-Keeps k (err e) x w h p = p

    pub bind-Keeps :
        (m : Action A) (k : A → Action B) → Keeps m → ((a : A) → Keeps (k a)) → Keeps (m >>= k)
    bind-Keeps m k hm hk x w p = after-Keeps k (m x w).0 x (m x w).1 hk (hm x w p)

  pub branch-Keeps {ℓ} :
      {A : Type ℓ} (c : Bool) (m n : Action A) → Keeps m → Keeps n → Keeps (if c then m else n)
  branch-Keeps true m n hm hn = hm
  branch-Keeps false m n hm hn = hn
