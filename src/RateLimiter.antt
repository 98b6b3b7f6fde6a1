-- ===== src/RateLimiter.antt =====
-- backend/rate_limiter.py: the per-key sliding-window limiter, its dependency and the limiters that
-- the backend configures. A time is a number of ticks of the clock, and `now - t < window` is
-- written `now < t + window`, which is the same for a clock that may also run backwards.
pub mod Trace
pub mod Prune
pub mod Tracks
pub mod Window
use minima_pi_net_os.Prelude.{
  text_eq, ℕ, ◌+◌, String, Bool, true, false, not, Option, none, some, List, [], ◌∷◌, ◌++◌, length,
  keep, any, Result, ok, raise, Exc, http, ltb, leb, if◌then◌else◌,
}
use minima_pi_net_os.Dict.{Dict, get, put}
use minima_pi_net_os.Dict.Distinct.{keys_where, remove_all}

pub record RateLimiter : Type 0 where
  pub max_requests : ℕ
  pub window_seconds : ℕ
  pub requests : Dict String (List ℕ)

-- `RateLimiter(max_requests, window_seconds)`
abbrev pub init : ℕ → ℕ → RateLimiter
init max_requests window_seconds = record {
  max_requests = max_requests;
  window_seconds = window_seconds;
  requests = [];
}

-- `now - t < self.window_seconds`
abbrev pub live : ℕ → ℕ → ℕ → Bool
live window now t = ltb now (t + window)

-- `defaultdict(list)`: a missing key reads as the empty list
abbrev pub or_empty : Option (List ℕ) → List ℕ
or_empty none = []
or_empty (some ts) = ts

abbrev pub timestamps : String → Dict String (List ℕ) → List ℕ
timestamps key d = or_empty (get key d)

abbrev pub prune_above : ℕ
prune_above = 10000

-- No timestamp of the entry is inside the window.
unfoldable pub is_stale : ℕ → ℕ → String × List ℕ → Bool
is_stale window now e = not (any (live window now) e.1)

-- The pruning block at the end of `check`.
unfoldable pub prune : ℕ → ℕ → Dict String (List ℕ) → Dict String (List ℕ)
unfolding is_stale
prune window now d =
    if ltb prune_above (length d) then remove_all (keys_where (is_stale window now) d) d else d

unfoldable pub check : RateLimiter → String → ℕ → Bool × RateLimiter
check l key now =
    let recent = keep (live l.window_seconds now) (timestamps key l.requests) in
    if leb l.max_requests (length recent)
    then (false, record l { requests = put key recent l.requests })
    else (
      true,
      record l { requests = prune l.window_seconds now (put key (recent ++ now ∷ []) l.requests) },
    )

-- `request.client.host if request.client else "unknown"`
abbrev pub client_ip : Option String → String
client_ip none = "unknown"
client_ip (some host) = host

-- `_check` of `rate_limit_dependency`
unfoldable pub rate_limit_dependency :
    RateLimiter → Option String → ℕ → Result (Unit {0}) × RateLimiter
rate_limit_dependency l client now =
    let (admitted, l') = check l (client_ip client) now in
    (if admitted then ok tt else raise (http 429), l')

abbrev pub fs_read_limiter : RateLimiter
fs_read_limiter = init 60 60

abbrev pub fs_write_limiter : RateLimiter
fs_write_limiter = init 20 60

abbrev pub os_info_limiter : RateLimiter
os_info_limiter = init 30 60

abbrev pub exec_rate_limiter : RateLimiter
exec_rate_limiter = init 10 60

abbrev pub sys_exec_limiter : RateLimiter
sys_exec_limiter = init 5 60

abbrev pub dapp_install_limiter : RateLimiter
dapp_install_limiter = init 10 60

abbrev pub dapp_serve_limiter : RateLimiter
dapp_serve_limiter = init 120 60

abbrev pub auth_login_limiter : RateLimiter
auth_login_limiter = init 5 60

abbrev pub security_check_limiter : RateLimiter
security_check_limiter = init 10 60
