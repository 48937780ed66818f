-- ===== src/World/Refusals.antt =====
-- Actions that only read, actions that end in no API error, and actions that refuse: an API error of
-- theirs leaves the tables alone.
use nexium_storage_back.Shared.{
  ℕ, ◌≡◌, refl, ◌∙◌, Bool, true, false, String, if◌then◌else◌, Error, api, infra, arith, Result, ok,
  err,
}
use nexium_storage_back.World.Tables.{Db}
use nexium_storage_back.World.Actions.{
  Event, Log, Ext, World, Action, pure, raise, ◌>>=◌, raise_if, ignore, call, ask, read, query,
  exec, exec_unique,
}

abbrev pub is_api {ℓ} : {A : Type ℓ} → Result A → Bool
is_api (ok a) = false
is_api (err (api n msg)) = true
is_api (err infra) = false

module _ {ℓ} {A : Type ℓ} where
  abbrev pub Reads : Action A → Type 0
  Reads m = (x : Ext) (w : World) → (m x w).1.db ≡ w.db

  abbrev pub IsFirm : Action A → Type 0
  IsFirm m = (x : Ext) (w : World) → is_api (m x w).0 ≡ false

  abbrev pub Refuses : Action A → Type 0
  Refuses m = (x : Ext) (w : World) → is_api (m x w).0 ≡ true → (m x w).1.db ≡ w.db

  pub Reads-Refuses : (m : Action A) → Reads m → Refuses m
  Reads-Refuses m k x w e = k x w

  pub IsFirm-Refuses : (m : Action A) → IsFirm m → Refuses m
  IsFirm-Refuses m k x w e = cc (k x w)

  pub pure-Reads : (a : A) → Reads (pure a)
  pure-Reads a x w = refl

  pub pure-IsFirm : (a : A) → IsFirm (pure a)
  pure-IsFirm a x w = refl

  pub ask-Reads : (f : Ext → Log → A) (e : Event) → Reads (ask f e)
  ask-Reads f e x w = refl

  pub ask-IsFirm : (f : Ext → Log → A) (e : Event) → IsFirm (ask f e)
  ask-IsFirm f e x w = ground arith

  pub read-Reads : (f : Ext → Log → A) (e : Event) → Reads (read f e)
  read-Reads f e x w = refl

  pub read-IsFirm : (f : Ext → Log → A) (e : Event) → IsFirm (read f e)
  read-IsFirm f e x w = refl

  pub query-Reads : (name : String) (f : ℕ → Db → A) → Reads (query name f)
  query-Reads name f x w = refl

  pub query-IsFirm : (name : String) (f : ℕ → Db → A) → IsFirm (query name f)
  query-IsFirm name f x w = ground arith

  pub branch-Reads : (c : Bool) (m n : Action A) → Reads m → Reads n → Reads (if c then m else n)
  branch-Reads true m n hm hn = hm
  branch-Reads false m n hm hn = hn

  pub branch-IsFirm :
      (c : Bool) (m n : Action A) → IsFirm m → IsFirm n → IsFirm (if c then m else n)
  branch-IsFirm true m n hm hn = hm
  branch-IsFirm false m n hm hn = hn

  pub branch-Refuses :
      (c : Bool) (m n : Action A) → Refuses m → Refuses n → Refuses (if c then m else n)
  branch-Refuses true m n hm hn = hm
  branch-Refuses false m n hm hn = hn

pub ignore-IsFirm {ℓ} : {A : Type ℓ} (m : Action A) → IsFirm (ignore m)
ignore-IsFirm m x w = refl

pub raise-Reads {ℓ} : (A : Type ℓ) (e : Error) → Reads (raise {A = A} e)
raise-Reads A e x w = refl

pub infra-IsFirm {ℓ} : (A : Type ℓ) → IsFirm (raise {A = A} infra)
infra-IsFirm A x w = refl

pub raise_if-Reads : (c : Bool) (e : Error) → Reads (raise_if c e)
raise_if-Reads c e x w = refl

pub raise_if_infra-IsFirm : (c : Bool) → IsFirm (raise_if c infra)
raise_if_infra-IsFirm c x w = ground arith

pub call-IsFirm : (e : Event) → IsFirm (call e)
call-IsFirm e x w = ground arith

pub exec-IsFirm : (name : String) (f : ℕ → Db → Db) → IsFirm (exec name f)
exec-IsFirm name f x w = ground arith

pub exec_unique-IsFirm :
    (name : String) (breaks : Db → Bool) (f : ℕ → Db → Db) → IsFirm (exec_unique name breaks f)
exec_unique-IsFirm name breaks f x w = ground arith

module _ {ℓ κ} {A : Type ℓ} {B : Type κ} where
  -- What `>>=` does after the first action.
  abbrev continued : (A → Action B) → Result A → Ext → World → Result B × World
  continued k r x w = elim r as (λ _. Result B × World) [ ok a ↦ k a x w | err e ↦ (err e, w) ]

  continued-Reads :
      (k : A → Action B) (r : Result A) (x : Ext) (w : World)
      → ((a : A) → Reads (k a))
      → (continued k r x w).1.db ≡ w.db
  continued-Reads k (ok a) x w h = h a x w
  continued-Reads k (err e) x w h = refl

  continued-IsFirm :
      (k : A → Action B) (r : Result A) (x : Ext) (w : World)
      → ((a : A) → IsFirm (k a))
      → is_api r ≡ false
      → is_api (continued k r x w).0 ≡ false
  continued-IsFirm k (ok a) x w h f = h a x w
  continued-IsFirm k (err (api n msg)) x w h f = f
  continued-IsFirm k (err infra) x w h f = f

  continued-Refuses :
      (k : A → Action B) (r : Result A) (x : Ext) (w : World)
      → ((a : A) → Refuses (k a))
      → is_api (continued k r x w).0 ≡ true
      → (continued k r x w).1.db ≡ w.db
  continued-Refuses k (ok a) x w h f = h a x w f
  continued-Refuses k (err e) x w h f = refl

  pub bind-Reads :
      (m : Action A) (k : A → Action B) → Reads m → ((a : A) → Reads (k a)) → Reads (m >>= k)
  bind-Reads m k hm hk x w = continued-Reads k (m x w).0 x (m x w).1 hk ∙ hm x w

  pub bind-IsFirm :
      (m : Action A) (k : A → Action B) → IsFirm m → ((a : A) → IsFirm (k a)) → IsFirm (m >>= k)
  bind-IsFirm m k hm hk x w = continued-IsFirm k (m x w).0 x (m x w).1 hk (hm x w)

  -- What is refused after reading has left the tables alone.
  pub bind-Refuses :
      (m : Action A) (k : A → Action B) → Reads m → ((a : A) → Refuses (k a)) → Refuses (m >>= k)
  bind-Refuses m k hm hk x w f = continued-Refuses k (m x w).0 x (m x w).1 hk f ∙ hm x w

refused_then_pure {ℓ} :
    {A : Type ℓ} (r : Result A) (x : Ext) (w : World) (db : Db)
    → (is_api r ≡ true → w.db ≡ db)
    → is_api (continued (λ _. pure (tt {0})) r x w).0 ≡ true
    → (continued (λ _. pure (tt {0})) r x w).1.db ≡ db
refused_then_pure (ok a) x w db h f = cc
refused_then_pure (err (api n msg)) x w db h f = h refl
refused_then_pure (err infra) x w db h f = cc

-- The value is dropped.
pub then_pure-Refuses {ℓ} :
    {A : Type ℓ} (m : Action A) → Refuses m → Refuses (m >>= λ _. pure (tt {0}))
then_pure-Refuses m k x w = refused_then_pure (m x w).0 x (m x w).1 w.db (k x w)

pub ruleset reading = (
  pure-Reads, ask-Reads, read-Reads, query-Reads, branch-Reads, raise-Reads, raise_if-Reads,
  bind-Reads,
)

pub ruleset firm = (
  pure-IsFirm, ask-IsFirm, read-IsFirm, query-IsFirm, ignore-IsFirm, branch-IsFirm, infra-IsFirm,
  raise_if_infra-IsFirm, call-IsFirm, exec-IsFirm, exec_unique-IsFirm, bind-IsFirm,
)

pub ruleset refusing = (Reads-Refuses, IsFirm-Refuses, branch-Refuses, bind-Refuses)
