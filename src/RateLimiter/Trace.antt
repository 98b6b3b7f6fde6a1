-- ===== src/RateLimiter/Trace.antt =====
-- Sequences of checks of the limiter of backend/rate_limiter.py, and the history of what it admits.
use minima_pi_net_os.Prelude.{
  text_eq, ℕ, ◌≤◌, ◌≡◌, String, Bool, true, false, List, [], ◌∷◌, ◌++◌, arith, ◌==◌, if◌then◌else◌,
}
use minima_pi_net_os.RateLimiter.{RateLimiter, check}

-- The admitted requests, oldest first.
abbrev pub History : Type 0
History = List (String × ℕ)

unfoldable pub times : String → History → List ℕ
times key [] = []
times key ((j, t) ∷ h) = let rest = times key h in if j == key then t ∷ rest else rest

pub times-append :
    (key j : String) (t : ℕ) (h : History)
    → times key (h ++ (j, t) ∷ []) ≡ (if j == key then times key h ++ t ∷ [] else times key h)
unfolding times
times-append key j t [] = ground arith
times-append key j t ((i, u) ∷ h) = ground (arith, times-append key j t h)

-- A request, at the time of its check.
abbrev pub Request : Type 0
Request = String × ℕ

-- The history that grows by what the limiter admits.
abbrev pub note : Bool → Request → History → History
note true r h = h ++ r ∷ []
note false r h = h

-- The limiter, and what it has admitted, after a sequence of checks.
unfoldable pub run : RateLimiter → History → List Request → RateLimiter × History
run l h [] = (l, h)
run l h ((key, now) ∷ rest) =
    let (admitted, l') = check l key now in run l' (note admitted (key, now) h) rest

-- The clock does not run backwards, from `n` on.
abbrev pub IsMonotone : ℕ → List Request → Type 0
IsMonotone n [] = Unit
IsMonotone n ((key, now) ∷ rest) = (n ≤ now) × IsMonotone now rest

abbrev pub last_time : ℕ → List Request → ℕ
last_time n [] = n
last_time n ((key, now) ∷ rest) = last_time now rest
