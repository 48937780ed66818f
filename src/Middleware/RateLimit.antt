-- ===== src/Middleware/RateLimit.antt =====
-- pkg/middleware/rate_limit.go: fixed windows of requests per key, a project's id or a client's
-- address. The map is read and written under a mutex, so requests and sweeps are atomic steps, in
-- any order.
use nexium_storage_back.Shared.{
  ℕ, ◌+◌, Bool, true, not, ◌||◌, String, Option, none, some, List, [], ◌∷◌, ◌==◌, ◌=s=◌, ltb,
  if◌then◌else◌,
}

-- `ipWindow`
pub record IpWindow : Type 0 where
  pub count : ℕ
  pub reset_at : ℕ

abbrev pub Windows : Type 0
Windows = String → Option IpWindow

abbrev put : String → Option IpWindow → Windows → Windows
put k v m j = if k =s= j then v else m j

-- `!ok || now.After(win.resetAt)`
abbrev is_over : ℕ → Option IpWindow → Bool
is_over t none = true
is_over t (some w) = ltb w.reset_at t

abbrev pub counted : Option IpWindow → IpWindow → IpWindow
counted none new = new
counted (some w) new = record w { count = w.count + 1 }

-- The window of the key after a request at the time, and whether the request goes through.
abbrev window_after : ℕ → ℕ → Option IpWindow → IpWindow
window_after length t old =
    let new : IpWindow = record { count = 1; reset_at = t + length } in
    if is_over t old then new else counted old new

unfoldable pub admitted : ℕ → ℕ → ℕ → Option IpWindow → Bool
admitted n length t old = is_over t old || not (ltb n (window_after length t old).count)

unfoldable pub request : ℕ → ℕ → String → ℕ → Windows → Windows × Bool
unfolding admitted
request n length key t m =
    (put key (some (window_after length t (m key))) m, admitted n length t (m key))

-- The goroutine that deletes the windows that are over.
unfoldable pub sweep : ℕ → Windows → Windows
sweep t m k = if is_over t (m k) then none else m k

pub data Step : Type 0 where
  arrives : String → ℕ → Step
  sweeps : ℕ → Step

abbrev pub time : Step → ℕ
time (arrives k t) = t
time (sweeps t) = t

unfoldable pub step : ℕ → ℕ → Step → Windows → Windows
unfolding request sweep
step n length (arrives k t) m = (request n length k t m).0
step n length (sweeps t) m = sweep t m

-- 1 for a request of the key that goes through.
unfoldable pub through : ℕ → ℕ → String → Step → Windows → ℕ
unfolding request
through n length key (arrives k t) m =
    if k =s= key then (if (request n length k t m).1 then 1 else 0) else 0
through n length key (sweeps t) m = 0

-- How many requests of the key go through.
unfoldable pub count_through : ℕ → ℕ → String → List Step → Windows → ℕ
unfolding step through
count_through n length key [] m = 0
count_through n length key (s ∷ ss) m =
    through n length key s m + count_through n length key ss (step n length s m)

-- The middleware of a route of projects: a request without a project is not limited.
unfoldable pub rate_limit_per_project : ℕ → ℕ → Option String → ℕ → Windows → Windows × Bool
rate_limit_per_project n length none t m = (m, true)
rate_limit_per_project n length (some project) t m = request n length project t m

-- The text before the last colon, and whether there was one; the address as character codes.
unfoldable pub cut_last_colon : List ℕ → Option (List ℕ)
cut_last_colon [] = none
cut_last_colon (c ∷ cs) = elim (cut_last_colon cs) [
  | some host ↦ some (c ∷ host)
  | none ↦ if c == b':' then some [] else none
]

-- `strings.LastIndex(addr, ":"); i > 0`
unfoldable pub host_of : List ℕ → List ℕ
host_of addr = elim (cut_last_colon addr) [ none ↦ addr | some [] ↦ addr | some host ↦ host ]

-- `clientIP`, of the trimmed header CF-Connecting-IP and the remote address.
unfoldable pub client_ip : List ℕ → List ℕ → List ℕ
client_ip [] addr = host_of addr
client_ip cf addr = cf
