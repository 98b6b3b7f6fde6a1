-- ===== src/RateLimiter/Window.antt =====
-- What the limiter of backend/rate_limiter.py promises, over every sequence of checks.
use mathlib.Core.Bool.{false≢true}
use minima_pi_net_os.Prelude.{
  text_eq, ℕ, ◌≤◌, ◌<◌, ◌≡◌, refl, ap, ◌∙◌, String, Bool, true, Option, some, List, [], ◌∷◌, ◌++◌,
  length, keep, any, Result, ok, raise, http, arith, ltb, lt→ltb, leb, Bool-cases, inl, inr,
  length-keep-le, if◌then◌else◌,
}
use minima_pi_net_os.Dict.{Dict, get, put}
use minima_pi_net_os.Dict.Distinct.{keys_where, get-remove_all, length-remove_all-le, mem_of_get}
use minima_pi_net_os.RateLimiter.{
  RateLimiter, init, live, timestamps, is_stale, prune_above, prune, check, client_ip,
  rate_limit_dependency,
}
use minima_pi_net_os.RateLimiter.Trace.{History, Request, times, note, run, IsMonotone, last_time}
use minima_pi_net_os.RateLimiter.Tracks.{Tracks, run-Tracks}

init-Tracks : (max_requests window : ℕ) → Tracks (init max_requests window) [] 0
unfolding get times
init-Tracks max_requests window = record {
  distinct = tt;
  same = λ k m le. refl;
  bounded = λ k. omega arith;
}

check-config :
    (l : RateLimiter) (key : String) (now : ℕ)
    → ((check l key now).1.window_seconds ≡ l.window_seconds)
      × ((check l key now).1.max_requests ≡ l.max_requests)
unfolding check
check-config l key now = ground arith

run-config :
    (requests : List Request) (l : RateLimiter) (h : History)
    → ((run l h requests).0.window_seconds ≡ l.window_seconds)
      × ((run l h requests).0.max_requests ≡ l.max_requests)
unfolding run
run-config [] l h = (refl, refl)
run-config ((key, now) ∷ rest) l h =
    let (w, n) = check-config l key now in
    let (ws, ns) = run-config rest (check l key now).1 (note (check l key now).0 (key, now) h) in
    (ws ∙ w, ns ∙ n)

module _ {l : RateLimiter} {h : History} {n : ℕ} (t : Tracks l h n) (key : String) where
  bound_of :
      (m : ℕ) → n ≤ m → length (keep (live l.window_seconds m) (times key h)) ≤ l.max_requests
  bound_of m le = rw (← t.same key m le) (
      omega (
        arith,
        length-keep-le (live l.window_seconds m) (timestamps key l.requests),
        t.bounded key,
      ))

  answer_of :
      (now : ℕ)
      → n ≤ now
      → (check l key now).0
        ≡ ltb (length (keep (live l.window_seconds now) (times key h))) l.max_requests
  unfolding check
  answer_of now le = rw (← t.same key now le) (ground arith)

module _ (max_requests window : ℕ) (requests : List Request) where
  abbrev pub after : RateLimiter
  after = (run (init max_requests window) [] requests).0

  abbrev pub admitted : History
  admitted = (run (init max_requests window) [] requests).1

  -- The admitted requests of one client in the window that ends at `m`.
  abbrev pub in_window : String → ℕ → ℕ
  in_window key m = length (keep (live window m) (times key admitted))

  module _ (ordered : IsMonotone 0 requests) where
    tracks : Tracks after admitted (last_time 0 requests)
    tracks =
        run-Tracks requests (init max_requests window) [] 0 (init-Tracks max_requests window)
          ordered

    -- After any sequence of checks at times that do not decrease, no key has more than
    -- `max_requests` admitted requests in the window that ends at any later time.
    pub window_bound :
        (key : String) (m : ℕ) → last_time 0 requests ≤ m → in_window key m ≤ max_requests
    window_bound key m le =
        let (same_window, same_limit) = run-config requests (init max_requests window) [] in
        rw (same_window, same_limit) at (bound_of tracks key m le)

    -- After any sequence of checks at times that do not decrease, the dependency lets the next
    -- request through exactly if its client, "unknown" where there is none, has fewer than
    -- `max_requests` admitted requests in the window, and raises HTTP 429 otherwise: what the
    -- limiter has dropped or pruned never changes an answer.
    pub rate_limit_dependency-window :
        (client : Option String) (now : ℕ)
        → last_time 0 requests ≤ now
        → (rate_limit_dependency after client now).0 ≡ (
            if ltb (in_window (client_ip client) now) max_requests then ok tt else raise (http 429))
    unfolding rate_limit_dependency
    rate_limit_dependency-window client now le =
        let (same_window, same_limit) = run-config requests (init max_requests window) [] in
        let key = client_ip client in
        let answer = rw (same_window, same_limit) at (answer_of tracks key now le) in
        let respond : Bool → Result (Unit {0}) = λ b. if b then ok tt else raise (http 429) in
        ap respond answer

prune_active :
    (w now : ℕ) (d : Dict String (List ℕ)) (k : String) {ts : List ℕ}
    → prune_above < length d
    → get k (prune w now d) ≡ some ts
    → any (live w now) ts ≡ true
unfolding prune is_stale
prune_active w now d k {ts} large at =
    let stale = keys_where (is_stale w now) d in
    ground (
      arith,
      get-remove_all stale k d,
      mem_of_get (is_stale w now) k {v = ts} d,
      lt→ltb prune_above (length d) large,
    )

length-prune-le : (w now : ℕ) (d : Dict String (List ℕ)) → length (prune w now d) ≤ length d
unfolding prune
length-prune-le w now d = ground (arith, length-remove_all-le (keys_where (is_stale w now) d) d)

-- Where an admitted check leaves more than 10,000 keys, every one of them has a request inside the
-- window.
pub check_prunes :
    (l : RateLimiter) (key : String) (now : ℕ) (k : String) (ts : List ℕ)
    → (check l key now).0 ≡ true
    → prune_above < length (check l key now).1.requests
    → get k (check l key now).1.requests ≡ some ts
    → any (live l.window_seconds now) ts ≡ true
unfolding check
check_prunes l key now k ts admits large at =
    let w = l.window_seconds in
    let recent = keep (live w now) (timestamps key l.requests) in
    let d = put key (recent ++ now ∷ []) l.requests in
    elim (Bool-cases (leb l.max_requests (length recent))) [
      | inl full ↦ absurd (false≢true (rw full at admits))
      | inr room ↦
          let kept : prune_above < length (prune w now d) = rw room at large in
          prune_active w now d k (omega (arith, kept, length-prune-le w now d)) (rw room at at)
    ]
