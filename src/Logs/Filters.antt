-- ===== src/Logs/Filters.antt =====
-- The list of the activity log against its filter.
use mathlib.Core.List.{Mem, mem-cons_self, mem-cons_of_mem}
use nexium_storage_back.Shared.{
  ◌⊎◌, ℕ, ◌≤◌, ◌≡◌, refl, Bool, true, false, ◌&&◌, some, List, [], ◌∷◌, ◌==◌, ltb, leb,
  if◌then◌else◌, find_by, any_by, arith, length, length-take, take, zero, suc, ok, sum_where,
  Option-cases, any_by-find_by, ◌∙◌, sym, Bool-cases, inl, inr,
}
use nexium_storage_back.World.{User, ActivityLog, Ext, World}
use nexium_storage_back.Logs.Patterns.{is_literal, is_wanted, is_asked_iff}
use nexium_storage_back.Logs.Store.{
  Filter, Entry, is_asked, entry_of, insert_entry, entries_of, list, limit_of,
}

abbrev pub Each : (Entry → Type 0) → List Entry → Type 0
Each P [] = Unit
Each P (e ∷ es) = P e × Each P es

abbrev pub AreNewestFirst : List Entry → Type 0
AreNewestFirst [] = Unit
AreNewestFirst (e ∷ es) = Each (λ d. d.row.created_at ≤ e.row.created_at) es × AreNewestFirst es

abbrev pub has_user : List User → ActivityLog → Bool
has_user us a = any_by (λ (u : User). u.id == a.user_id) us

-- A wanted row of the log, with the name and the email of its user.
abbrev pub IsEntryOf : Filter → List User → List ActivityLog → Entry → Type 0
IsEntryOf f us rows e =
    Mem e.row rows
    × (is_wanted f e.row ≡ true)
    × ((u : User) × ((find_by (λ (v : User). v.id == e.row.user_id) us ≡ some u)
          × (e.user_name ≡ u.name)
          × (e.user_email ≡ u.email)))

module _ (P : Entry → Type 0) where
  Each-insert_entry : (e : Entry) (es : List Entry) → P e → Each P es → Each P (insert_entry e es)
  unfolding insert_entry
  Each-insert_entry e [] p ps = (p, tt)
  Each-insert_entry e (d ∷ es) p ps =
      elim (ltb e.row.created_at d.row.created_at)
        as (λ b. Each P (if b then d ∷ insert_entry e es else e ∷ d ∷ es)) [
          | true ↦ (ps.0, Each-insert_entry e es p ps.1)
          | false ↦ (p, ps)
        ]

  Each-take : (n : ℕ) (es : List Entry) → Each P es → Each P (take n es)
  Each-take zero es ps = tt
  Each-take (suc n) [] ps = tt
  Each-take (suc n) (e ∷ es) ps = (ps.0, Each-take n es ps.1)

Each-map :
    {P Q : Entry → Type 0} (es : List Entry) → ((e : Entry) → P e → Q e) → Each P es → Each Q es
Each-map [] f ps = tt
Each-map (e ∷ es) f ps = (f e ps.0, Each-map es f ps.1)

AreNewestFirst-insert_entry :
    (e : Entry) (es : List Entry) → AreNewestFirst es → AreNewestFirst (insert_entry e es)
unfolding insert_entry
AreNewestFirst-insert_entry e [] s = (tt, tt)
AreNewestFirst-insert_entry e (d ∷ es) s =
    elim (Bool-cases (ltb e.row.created_at d.row.created_at)) [
      | inl h ↦ rw h (
        Each-insert_entry (λ c. c.row.created_at ≤ d.row.created_at) e es (ground arith) s.0,
        AreNewestFirst-insert_entry e es s.1,
      )
      | inr h ↦
          let le : d.row.created_at ≤ e.row.created_at = ground arith in
          rw h ((le, Each-map es (λ c l. omega (arith, l, le)) s.0), s)
    ]

AreNewestFirst-take : (n : ℕ) (es : List Entry) → AreNewestFirst es → AreNewestFirst (take n es)
AreNewestFirst-take zero es s = tt
AreNewestFirst-take (suc n) [] s = tt
AreNewestFirst-take (suc n) (e ∷ es) s =
    (Each-take (λ d. d.row.created_at ≤ e.row.created_at) n es s.0, AreNewestFirst-take n es s.1)

length-insert_entry : (e : Entry) (es : List Entry) → length (insert_entry e es) ≡ suc (length es)
unfolding insert_entry
length-insert_entry e [] = refl
length-insert_entry e (d ∷ es) = ground (arith, length-insert_entry e es)

module _ (f : Filter) (us : List User) (plain : is_literal f.action ≡ true) where
  abbrev of_user : ActivityLog → User → Bool
  of_user a u = u.id == a.user_id

  -- A row is left out, or is put among the others.
  entries_of_cases :
      (a : ActivityLog) (rows : List ActivityLog)
      → (((has_user us a && is_wanted f a) ≡ false)
          × (entries_of f us (a ∷ rows) ≡ entries_of f us rows))
        ⊎ ((u : User) × ((find_by (of_user a) us ≡ some u)
              × (is_wanted f a ≡ true)
              × (has_user us a ≡ true)
              × (entries_of f us (a ∷ rows) ≡ insert_entry (entry_of a u) (entries_of f us rows))))
  unfolding entries_of
  entries_of_cases a rows =
      let e = any_by-find_by (of_user a) us in
      elim (Option-cases (find_by (of_user a) us)) [
        | inl h ↦ inl (ground arith, rw (entries_of, h) refl)
        | inr (u, h) ↦ elim (Bool-cases (is_asked f a)) [
          | inl i ↦
              inr
                (u, (h, sym (is_asked_iff f a plain) ∙ i, ground arith, rw (entries_of, h, i) refl))
          | inr i ↦
              let no = sym (is_asked_iff f a plain) ∙ i in
              inl (ground arith, rw (entries_of, h, i) refl)
        ]
      ]

  entries_of-AreNewestFirst : (rows : List ActivityLog) → AreNewestFirst (entries_of f us rows)
  unfolding entries_of
  entries_of-AreNewestFirst [] = tt
  entries_of-AreNewestFirst (a ∷ rows) =
      let rest = entries_of-AreNewestFirst rows in
      elim (entries_of_cases a rows) [
        | inl (n, e) ↦ rw e rest
        | inr (u, (h, i, j, e)) ↦
            rw e (AreNewestFirst-insert_entry (entry_of a u) (entries_of f us rows) rest)
      ]

  entries_of-IsEntryOf :
      (rows : List ActivityLog) → Each (IsEntryOf f us rows) (entries_of f us rows)
  unfolding entries_of
  entries_of-IsEntryOf [] = tt
  entries_of-IsEntryOf (a ∷ rows) =
      let P = IsEntryOf f us (a ∷ rows) in
      let rest =
        Each-map {P = IsEntryOf f us rows} {Q = P} (entries_of f us rows)
          (λ e p. (mem-cons_of_mem a p.0, p.1, p.2)) (entries_of-IsEntryOf rows) in
      elim (entries_of_cases a rows) [
        | inl (n, e) ↦ rw e rest
        | inr (u, (h, i, j, e)) ↦ rw e (
            Each-insert_entry P (entry_of a u) (entries_of f us rows)
              (mem-cons_self, i, (u, (h, refl, refl))) rest)
      ]

  length-entries_of :
      (rows : List ActivityLog)
      → length (entries_of f us rows)
        ≡ sum_where (λ a. has_user us a && is_wanted f a) (λ a. 1) rows
  unfolding entries_of sum_where
  length-entries_of [] = refl
  length-entries_of (a ∷ rows) =
      let rest = length-entries_of rows in
      elim (entries_of_cases a rows) [
        | inl (n, e) ↦ rw (e, n) omega (arith, rest)
        | inr (u, (h, i, j, e)) ↦
            rw (e, j, i) omega
              (arith, length-insert_entry (entry_of a u) (entries_of f us rows), rest)
      ]

length-take_entries :
    (n : ℕ) (es : List Entry) → length (take n es) ≡ (if leb (length es) n then length es else n)
length-take_entries zero [] = ground arith
length-take_entries zero (e ∷ es) = ground arith
length-take_entries (suc n) [] = ground arith
length-take_entries (suc n) (e ∷ es) = ground (arith, length-take_entries n es)

list-take :
    (f : Filter) (x : Ext) (w : World) {es : List Entry}
    → (list f x w).0 ≡ ok es
    → take (limit_of f.limit) (entries_of f w.db.users w.db.activity_logs) ≡ es
unfolding list
list-take f x w {es} h = ground arith

-- For an action without "%", "_" and a backslash, the list of the activity log, where it returns, has
-- rows of the log only, with the name and the email of their users; each is of the user of the filter, and
-- its action begins by that of the filter; they are newest first; and as many are given as the log has
-- such rows with a user, up to the limit.
pub list-IsFiltered :
    (f : Filter) (x : Ext) (w : World) {es : List Entry}
    → is_literal f.action ≡ true
    → (list f x w).0 ≡ ok es
    → let n = sum_where (λ a. has_user w.db.users a && is_wanted f a) (λ a. 1) w.db.activity_logs in
      Each (IsEntryOf f w.db.users w.db.activity_logs) es
      × AreNewestFirst es
      × (length es ≡ (if leb n (limit_of f.limit) then n else limit_of f.limit))
      × (length es ≤ 500)
list-IsFiltered f x w {es} plain h =
    let us = w.db.users in
    let rows = w.db.activity_logs in
    let n = limit_of f.limit in
    let all = entries_of f us rows in
    let count = length-entries_of f us plain rows in
    let bound = length-take n all in
    rw (sym (list-take f x w h), sym count)
      (
        Each-take (IsEntryOf f us rows) n all (entries_of-IsEntryOf f us plain rows),
        AreNewestFirst-take n all (entries_of-AreNewestFirst f us plain rows),
        length-take_entries n all,
        ground arith,
      )
