-- ===== src/Cpip/Alike.antt =====
-- The rate limit of the middleware of backend/cpip_provider.py against the limiter of
-- backend/rate_limiter.py: two implementations of one sliding window.
use minima_pi_net_os.Prelude.{
  text_eq, ℕ, ◌≤◌, ◌≡◌, refl, sym, ap, ap₂, ◌∙◌, String, Bool, true, false, List, [], ◌∷◌, ◌++◌,
  length, keep, arith, leb, ◌==◌, Bool-cases, inl, inr, if◌then◌else◌,
}
use minima_pi_net_os.Dict.{put, get-put}
use minima_pi_net_os.Dict.Distinct.{IsDistinct, IsDistinct-put}
use minima_pi_net_os.RateLimiter.{RateLimiter, init, live, timestamps, prune, check}
use minima_pi_net_os.RateLimiter.Trace.{Request, IsMonotone}
use minima_pi_net_os.RateLimiter.Prune.{prune-IsDistinct, timestamps-prune}
use minima_pi_net_os.Cpip.Middleware.{Limits, window, RateCounts, check_rate_limit}

-- The answers to a sequence of requests.
unfoldable pub answers : RateLimiter → List Request → List Bool
answers l [] = []
answers l ((key, now) ∷ rest) =
    let (admitted, after) = check l key now in admitted ∷ answers after rest

unfoldable pub middleware_answers : Limits → RateCounts → List Request → List Bool
middleware_answers l c [] = []
middleware_answers l c ((key, now) ∷ rest) =
    let (admitted, after) = check_rate_limit l key now c in
    admitted ∷ middleware_answers l after rest

-- What two tables show from the time `n` on is the same.
abbrev Shows : ℕ → ℕ → RateCounts → RateCounts → Type 0
Shows w n d c =
    (k : String) (m : ℕ)
    → n ≤ m
    → keep (live w m) (timestamps k d) ≡ keep (live w m) (timestamps k c)

timestamps-put :
    (key k : String) (ts : List ℕ) (d : RateCounts)
    → timestamps k (put key ts d) ≡ (if key == k then ts else timestamps k d)
timestamps-put key k ts d = ground (arith, get-put key k ts d)

module _ (w : ℕ) (key : String) (n now : ℕ) (d c : RateCounts) (shows : Shows w n d c)
    (le : n ≤ now) where
  abbrev recent : RateCounts → List ℕ
  recent e = keep (live w now) (timestamps key e)

  same_recent : recent d ≡ recent c
  same_recent = shows key now le

  put-Shows : (xs ys : List ℕ) → xs ≡ ys → Shows w now (put key xs d) (put key ys c)
  put-Shows xs ys same k m le' = elim (Bool-cases (key == k)) [
    | inl this ↦
        rw (timestamps-put key k xs d, timestamps-put key k ys c, this) (ap (keep (live w m)) same)
    | inr other ↦
        rw (timestamps-put key k xs d, timestamps-put key k ys c, other) (shows k m (omega arith))
  ]

  pruned-Shows :
      (xs ys : List ℕ)
      → xs ≡ ys
      → IsDistinct d
      → Shows w now (prune w now (put key xs d)) (put key ys c)
  pruned-Shows xs ys same distinct k m le' =
      timestamps-prune w now (put key xs d) k (IsDistinct-put key xs d distinct) m le'
      ∙ put-Shows xs ys same k m le'

abbrev limiter : Limits → RateCounts → RateLimiter
limiter l e = record { max_requests = l.rate_limit; window_seconds = window l; requests = e }

module _ (l : Limits) (c : RateCounts) (d : RateCounts) (key : String) (n now : ℕ) (le : n ≤ now)
    (distinct : IsDistinct d) (shows : Shows (window l) n d c) where
  step :
      ((check (limiter l d) key now).0 ≡ (check_rate_limit l key now c).0)
      × IsDistinct (check (limiter l d) key now).1.requests
      × Shows
          (window l)
          now
          (check (limiter l d) key now).1.requests
          (check_rate_limit l key now c).1
      × ((check (limiter l d) key now).1 ≡ limiter l (check (limiter l d) key now).1.requests)
  unfolding check check_rate_limit
  step =
      let w = window l in
      let same = same_recent w key n now d c shows le in
      elim (Bool-cases (leb l.rate_limit (length (recent w key n now d c shows le d)))) [
        | inl full ↦
            let full' : leb l.rate_limit (length (keep (live w now) (timestamps key c))) ≡ true =
              rw same at full in
            rw (full, full')
              (
                refl,
                IsDistinct-put key _ d distinct,
                put-Shows w key n now d c shows le _ _ same,
                refl,
              )
        | inr room ↦
            let room' : leb l.rate_limit (length (keep (live w now) (timestamps key c))) ≡ false =
              rw same at room in
            rw (room, room')
              (
                refl,
                prune-IsDistinct w now _ (IsDistinct-put key _ d distinct),
                pruned-Shows w key n now d c shows le _ _ (ap (λ xs. xs ++ now ∷ []) same) distinct,
                refl,
              )
      ]

answers_from :
    (l : Limits) (requests : List Request) (d c : RateCounts) (n : ℕ)
    → IsDistinct d
    → Shows (window l) n d c
    → IsMonotone n requests
    → answers (limiter l d) requests ≡ middleware_answers l c requests
unfolding answers middleware_answers
answers_from l [] d c n distinct shows ordered = refl
answers_from l ((key, now) ∷ rest) d c n distinct shows ordered =
    let (same, distinct', shows', whole) = step l c d key n now ordered.0 distinct shows in
    let after = (check (limiter l d) key now).1.requests in
    ap₂ (λ b bs. b ∷ bs) same
      (ap (λ r. answers r rest) whole
        ∙ answers_from l rest after (check_rate_limit l key now c).1 now distinct' shows' ordered.1)

-- On every sequence of requests at times that do not decrease, the middleware's rate limit, which
-- never prunes its table, answers as the limiter of backend/rate_limiter.py does with the same limit
-- and window.
pub check_rate_limit-alike :
    (l : Limits) (requests : List Request)
    → IsMonotone 0 requests
    → middleware_answers l [] requests ≡ answers (init l.rate_limit (window l)) requests
check_rate_limit-alike l requests ordered =
    sym (answers_from l requests [] [] 0 tt (λ k m le. refl) ordered)
