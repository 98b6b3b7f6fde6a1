-- ===== src/Tests/RateLimiter.antt =====
-- backend/rate_limiter.py on concrete requests.
use minima_pi_net_os.Prelude.{
  text_eq, ◌≤◌, ◌≡◌, refl, true, false, some, List, [], ◌∷◌, keep, ok, raise, http, arith,
  if◌then◌else◌, ltb,
}
use minima_pi_net_os.Dict.{get, put}
use minima_pi_net_os.RateLimiter.{check, prune, rate_limit_dependency}
use minima_pi_net_os.RateLimiter.Trace.{Request, run}
use minima_pi_net_os.RateLimiter.Window.{
  in_window, admitted, after, window_bound, rate_limit_dependency-window,
}

abbrev requests : List Request
requests = ("10.0.0.1", 1) ∷ ("10.0.0.1", 2) ∷ ("10.0.0.2", 2) ∷ ("10.0.0.1", 3) ∷ []

-- The third request of one client within a window of two is refused, the one of another is not.
admitted_requests :
    admitted 2 60 requests ≡ ("10.0.0.1", 1) ∷ ("10.0.0.1", 2) ∷ ("10.0.0.2", 2) ∷ []
unfolding run check get put keep prune
admitted_requests = refl

refused_then_admitted :
    ((check (after 2 60 requests) "10.0.0.1" 60).0 ≡ false)
    × ((check (after 2 60 requests) "10.0.0.1" 61).0 ≡ true)
unfolding run check get put keep prune
refused_then_admitted = (refl, refl)

window_bound_example : in_window 2 60 requests "10.0.0.1" 40 ≤ 2
window_bound_example = window_bound 2 60 requests (omega arith) "10.0.0.1" 40 (omega arith)

rate_limit_dependency-window_example :
    (rate_limit_dependency (after 2 60 requests) (some "10.0.0.1") 40).0
    ≡ (if ltb (in_window 2 60 requests "10.0.0.1" 40) 2 then ok tt else raise (http 429))
rate_limit_dependency-window_example =
    rate_limit_dependency-window 2 60 requests (omega arith) (some "10.0.0.1") 40 (omega arith)
