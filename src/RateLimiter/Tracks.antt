-- ===== src/RateLimiter/Tracks.antt =====
-- The invariant that ties the limiter of backend/rate_limiter.py to what it has admitted.
use minima_pi_net_os.Prelude.{
  text_eq, ℕ, ◌≤◌, ◌≡◌, sym, ap, ◌∙◌, String, true, false, List, [], ◌∷◌, ◌++◌, length, keep, arith,
  leb, ◌==◌, beq_iff, Bool-cases, inl, inr, keep-keep, keep-append, length-append, length-keep-le,
  if◌then◌else◌,
}
use minima_pi_net_os.Dict.{Dict, put, get-put}
use minima_pi_net_os.Dict.Distinct.{IsDistinct, IsDistinct-put}
use minima_pi_net_os.RateLimiter.{RateLimiter, live, timestamps, prune, check}
use minima_pi_net_os.RateLimiter.Trace.{
  History, Request, times, times-append, note, run, IsMonotone, last_time,
}
use minima_pi_net_os.RateLimiter.Prune.{
  live_later, prune-IsDistinct, timestamps-prune, length-timestamps-prune, leb-false,
}

-- The limiter `l`, at time `n`, knows of the history `h` all that a later check can see.
pub record Tracks (l : RateLimiter) (h : History) (n : ℕ) : Type 0 where
  pub distinct : IsDistinct l.requests
  pub same :
      (k : String) (m : ℕ)
      → n ≤ m
      → keep (live l.window_seconds m) (timestamps k l.requests)
        ≡ keep (live l.window_seconds m) (times k h)
  pub bounded : (k : String) → length (timestamps k l.requests) ≤ l.max_requests

timestamps-put :
    (key k : String) (ts : List ℕ) (d : Dict String (List ℕ))
    → timestamps k (put key ts d) ≡ (if key == k then ts else timestamps k d)
timestamps-put key k ts d = ground (arith, get-put key k ts d)

module _ {l : RateLimiter} {h : History} {n : ℕ} (key : String) (now : ℕ) (t : Tracks l h n)
    (le : n ≤ now) where
  abbrev recent : List ℕ
  recent = keep (live l.window_seconds now) (timestamps key l.requests)

  abbrev stored : List ℕ → Dict String (List ℕ)
  stored ts = put key ts l.requests

  same-recent :
      (m : ℕ)
      → now ≤ m
      → keep (live l.window_seconds m) recent ≡ keep (live l.window_seconds m) (times key h)
  same-recent m le' =
      keep-keep (live l.window_seconds now) (live l.window_seconds m) (timestamps key l.requests)
        (live_later l.window_seconds now m le')
      ∙ t.same key m (omega arith)

  same-recent_at :
      (k : String) (m : ℕ)
      → now ≤ m
      → (key == k) ≡ true
      → keep (live l.window_seconds m) recent ≡ keep (live l.window_seconds m) (times k h)
  same-recent_at k m le' this =
      same-recent m le'
      ∙ ap (λ j. keep (live l.window_seconds m) (times j h)) ((beq_iff key k).0 this)

  length-recent-le : length recent ≤ l.max_requests
  length-recent-le =
      omega (
        arith,
        length-keep-le (live l.window_seconds now) (timestamps key l.requests),
        t.bounded key,
      )

  refused-Tracks : Tracks (record l { requests = stored recent }) h now
  refused-Tracks = record {
    distinct = IsDistinct-put key recent l.requests t.distinct;
    same = λ k m le'. elim (Bool-cases (key == k)) [
      | inl this ↦ rw (timestamps-put, this) (same-recent_at k m le' this)
      | inr other ↦ rw (timestamps-put, other) (t.same k m (omega arith))
    ];
    bounded = λ k. elim (Bool-cases (key == k)) [
      | inl this ↦ rw (timestamps-put, this) length-recent-le
      | inr other ↦ rw (timestamps-put, other) (t.bounded k)
    ];
  }

  abbrev grown : List ℕ
  grown = recent ++ now ∷ []

  same-grown :
      (k : String) (m : ℕ)
      → now ≤ m
      → keep (live l.window_seconds m) (timestamps k (stored grown))
        ≡ keep (live l.window_seconds m) (times k (h ++ (key, now) ∷ []))
  same-grown k m le' = elim (Bool-cases (key == k)) [
    | inl this ↦
        rw (timestamps-put, times-append, this)
          (keep-append (live l.window_seconds m) recent (now ∷ [])
            ∙ ap (λ xs. xs ++ keep (live l.window_seconds m) (now ∷ []))
                (same-recent_at k m le' this)
            ∙ sym (keep-append (live l.window_seconds m) (times k h) (now ∷ [])))
    | inr other ↦ rw (timestamps-put, times-append, other) (t.same k m (omega arith))
  ]

  admitted-Tracks :
      leb l.max_requests (length recent) ≡ false
      → Tracks
          (record l { requests = prune l.window_seconds now (stored grown) })
          (h ++ (key, now) ∷ [])
          now
  admitted-Tracks room =
      let distinct = IsDistinct-put key grown l.requests t.distinct in
      record {
        distinct = prune-IsDistinct l.window_seconds now (stored grown) distinct;
        same = λ k m le'.
            timestamps-prune l.window_seconds now (stored grown) k distinct m le'
            ∙ same-grown k m le';
        bounded = λ k. elim (Bool-cases (key == k)) [
          | inl this ↦ omega (
            arith,
            length-timestamps-prune l.window_seconds now (stored grown) k distinct,
            ap length (rw this at (timestamps-put key k grown l.requests)),
            length-append recent (now ∷ []),
            leb-false l.max_requests (length recent) room,
          )
          | inr other ↦ omega (
            arith,
            length-timestamps-prune l.window_seconds now (stored grown) k distinct,
            ap length (rw other at (timestamps-put key k grown l.requests)),
            t.bounded k,
          )
        ];
      }

pub check-Tracks :
    {l : RateLimiter} {h : History} {n : ℕ} (key : String) (now : ℕ)
    → Tracks l h n
    → n ≤ now
    → Tracks (check l key now).1 (note (check l key now).0 (key, now) h) now
unfolding check
check-Tracks {l} {h} key now t le =
    elim (Bool-cases (leb l.max_requests (length (recent key now t le)))) [
      | inl full ↦ rw full (refused-Tracks key now t le)
      | inr room ↦ rw room (admitted-Tracks key now t le room)
    ]

pub run-Tracks :
    (requests : List Request) (l : RateLimiter) (h : History) (n : ℕ)
    → Tracks l h n
    → IsMonotone n requests
    → Tracks (run l h requests).0 (run l h requests).1 (last_time n requests)
unfolding run
run-Tracks [] l h n t ordered = t
run-Tracks ((key, now) ∷ rest) l h n t ordered =
    run-Tracks rest (check l key now).1 (note (check l key now).0 (key, now) h) now
      (check-Tracks key now t ordered.0) ordered.1
