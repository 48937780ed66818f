-- ===== src/Middleware/Bursts.antt =====
-- How many requests the rate limiter of pkg/middleware/rate_limit.go lets through.
use text.Mathlib.TextEquality.{eq_iff}
use text.Mathlib.TextPositions.{eq_refl}
use nexium_storage_back.Shared.{
  ℕ, ◌+◌, ◌-◌, ◌*◌, ◌≤◌, ◌≡◌, refl, ◌⊎◌, inl, inr, Bool, true, false, String, Option, none, some,
  List, [], ◌∷◌, ◌++◌, ◌==◌, if◌then◌else◌, arith,
}
use nexium_storage_back.Middleware.RateLimit.{
  IpWindow, Windows, admitted, request, sweep, Step, arrives, sweeps, time, step, through,
  count_through, cut_last_colon, host_of, client_ip,
}

-- All steps lie between the two times.
abbrev Within : ℕ → ℕ → List Step → Type 0
Within a b [] = Unit
Within a b (s ∷ ss) = ((a ≤ time s) × (time s ≤ b)) × Within a b ss

-- What a window allows: the requests that are left in it.
abbrev left : ℕ → Option IpWindow → ℕ
left n none = 0
left n (some w) = n - w.count

-- The window outlives the time.
abbrev Outlives : ℕ → Option IpWindow → Type 0
Outlives b none = ⊥
Outlives b (some w) = b ≤ w.reset_at

module _ (n length : ℕ) (key : String) where
  -- One step, in a window that is not over by the end: it is kept, and what goes through is counted.
  step_in_window :
      (s : Step) (m : Windows) (b : ℕ)
      → time s ≤ b
      → Outlives b (m key)
      → Outlives b (step n length s m key)
        × (through n length key s m + left n (step n length s m key) ≤ left n (m key))
  unfolding step through request sweep admitted
  step_in_window (arrives k t) m b h o = ground (arith, eq_iff k key)
  step_in_window (sweeps t) m b h o = ground arith

  count_in_window :
      (ss : List Step) (m : Windows) (a b : ℕ)
      → Within a b ss
      → Outlives b (m key)
      → count_through n length key ss m ≤ left n (m key)
  unfolding count_through
  count_in_window [] m a b h o = omega arith
  count_in_window (s ∷ ss) m a b h o =
      let (o', le) = step_in_window s m b h.0.1 o in
      omega (arith, le, count_in_window ss (step n length s m) a b h.1 o')

  -- One step in any state: either the key's window is kept, or a new one is opened that outlives
  -- the interval, by the one request that goes through.
  step_any :
      (s : Step) (m : Windows) (a : ℕ)
      → 1 ≤ n
      → a ≤ time s
      → (through n length key s m + left n (step n length s m key) ≤ left n (m key))
        ⊎ (Outlives (a + length) (step n length s m key)
            × (through n length key s m + left n (step n length s m key) ≤ n))
  unfolding step through request sweep admitted
  step_any (arrives k t) m a pos_n h = ground (arith, eq_iff k key)
  step_any (sweeps t) m a pos_n h = ground arith

  count_any :
      (ss : List Step) (m : Windows) (a : ℕ)
      → 1 ≤ n
      → Within a (a + length) ss
      → count_through n length key ss m ≤ left n (m key) + n
  unfolding count_through
  count_any [] m a pos_n h = omega arith
  count_any (s ∷ ss) m a pos_n h = elim (step_any s m a pos_n h.0.0) [
    | inl le ↦ omega (arith, le, count_any ss (step n length s m) a pos_n h.1)
    | inr (o, le) ↦ omega (arith, le, count_in_window ss (step n length s m) a (a + length) h.1 o)
  ]

  left-le : (w : Option IpWindow) → left n w ≤ n
  left-le none = omega arith
  left-le (some w) = omega arith

-- Whatever the state of the windows and the order of requests and sweeps, in any interval as long
-- as a window at most twice the limit of a key's requests go through.
pub burst_bound :
    (n length : ℕ) (key : String) (ss : List Step) (m : Windows) (a : ℕ)
    → 1 ≤ n
    → Within a (a + length) ss
    → count_through n length key ss m ≤ 2 * n
burst_bound n length key ss m a pos_n h =
    omega (arith, count_any n length key ss m a pos_n h, left-le n length key (m key))

-- From the request that opens a window on, at most the limit goes through before the window ends.
window_bound :
    (n length : ℕ) (key : String) (ss : List Step) (m : Windows) (t : ℕ)
    → 1 ≤ n
    → m key ≡ none
    → Within t (t + length) ss
    → count_through n length key (arrives key t ∷ ss) m ≤ n
unfolding count_through through request step admitted
window_bound n length key ss m t pos_n fresh h =
    let m1 = step n length (arrives key t) m in
    ground (arith, eq_refl key, count_in_window n length key ss m1 t (t + length) h)

-- The sweeps are invisible: a request at a later time is answered as it would be without the
-- sweep, and leaves the same window.
sweep_invisible :
    (n length : ℕ) (k : String) (t t' : ℕ) (m : Windows)
    → t ≤ t'
    → ((request n length k t' (sweep t m)).1 ≡ (request n length k t' m).1)
      × ((request n length k t' (sweep t m)).0 k ≡ (request n length k t' m).0 k)
unfolding request sweep admitted
sweep_invisible n length k t t' m h = ground (arith, eq_refl k)

abbrev has_colon : List ℕ → Bool
has_colon [] = false
has_colon (c ∷ cs) = if c == b':' then true else has_colon cs

cut_last_colon-none : (port : List ℕ) → has_colon port ≡ false → cut_last_colon port ≡ none
unfolding cut_last_colon
cut_last_colon-none [] h = refl
cut_last_colon-none (c ∷ cs) h = ground (arith, cut_last_colon-none cs)

cut_last_colon-append :
    (host port : List ℕ) → has_colon port ≡ false → cut_last_colon (host ++ b':' ∷ port) ≡ some host
unfolding cut_last_colon
cut_last_colon-append [] port h = rw (cut_last_colon-none port h, cut_last_colon)
cut_last_colon-append (c ∷ host) port h = ground (arith, cut_last_colon-append host port h)

-- Without Cloudflare's header the key of an address `host:port` is the host, also where the host is
-- an IPv6 address with colons of its own: two connections of one client share a window.
client_ip-host :
    (c : ℕ) (host port : List ℕ)
    → has_colon port ≡ false
    → client_ip [] ((c ∷ host) ++ b':' ∷ port) ≡ c ∷ host
unfolding client_ip host_of
client_ip-host c host port h = ground (arith, cut_last_colon-append (c ∷ host) port h)
