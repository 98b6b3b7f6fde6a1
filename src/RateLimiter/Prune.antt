-- ===== src/RateLimiter/Prune.antt =====
-- Pruning, as the checks of backend/rate_limiter.py see it: it hides only what is dead.
use minima_pi_net_os.Prelude.{
  text_eq, ℕ, ◌≤◌, ◌<◌, ◌≡◌, sym, ap, ◌∙◌, ◌⊎◌, String, true, false, List, [], length, keep, any,
  arith, leb, ltb, Bool-cases, inl, inr, keep-keep, keep_none,
}
use minima_pi_net_os.Dict.{Dict}
use minima_pi_net_os.Dict.Distinct.{
  IsDistinct, IsDistinct-remove_all, keys_where, remove_all, get-remove_all, mem, mem-keys_where,
}
use minima_pi_net_os.RateLimiter.{live, timestamps, prune_above, is_stale, prune}

-- What is dead at a time is dead later.
pub live_later : (w now m : ℕ) → now ≤ m → (t : ℕ) → live w m t ≡ true → live w now t ≡ true
live_later w now m le t h = ground arith

keep_dead :
    (w now m : ℕ) (ts : List ℕ) → now ≤ m → any (live w now) ts ≡ false → keep (live w m) ts ≡ []
unfolding keep
keep_dead w now m ts le dead =
    sym (keep-keep (live w now) (live w m) ts (live_later w now m le))
    ∙ ap (keep (live w m)) (keep_none (live w now) ts dead)

pub prune-IsDistinct :
    (w now : ℕ) (d : Dict String (List ℕ)) → IsDistinct d → IsDistinct (prune w now d)
unfolding prune
prune-IsDistinct w now d h = elim (Bool-cases (ltb prune_above (length d))) [
  | inl large ↦ rw large (IsDistinct-remove_all (keys_where (is_stale w now) d) d h)
  | inr small ↦ rw small h
]

pub leb-false : (a b : ℕ) → leb a b ≡ false → b < a
leb-false a b h = ground arith

-- A pruned key reads as empty, and any other as before.
timestamps-remove :
    (w now : ℕ) (d : Dict String (List ℕ)) (key : String)
    → IsDistinct d
    → let ks = keys_where (is_stale w now) d in
      (timestamps key (remove_all ks d) ≡ timestamps key d)
      ⊎ ((timestamps key (remove_all ks d) ≡ []) × (any (live w now) (timestamps key d) ≡ false))
unfolding is_stale
timestamps-remove w now d key distinct =
    let ks = keys_where (is_stale w now) d in
    elim (Bool-cases (mem key ks)) [
      | inl stale ↦
          let (v, at, dead) = mem-keys_where (is_stale w now) key d distinct stale in
          inr (rw (get-remove_all, stale), rw at (ground arith))
      | inr kept ↦ inl (rw (get-remove_all, kept))
    ]

module _ (w now : ℕ) (d : Dict String (List ℕ)) (key : String) (distinct : IsDistinct d) where
  -- Pruning hides only what is dead, now and later.
  pub timestamps-prune :
      (m : ℕ)
      → now ≤ m
      → keep (live w m) (timestamps key (prune w now d)) ≡ keep (live w m) (timestamps key d)
  unfolding prune keep
  timestamps-prune m le = elim (Bool-cases (ltb prune_above (length d))) [
    | inr small ↦ rw small
    | inl large ↦ elim (timestamps-remove w now d key distinct) [
      | inl same ↦ rw (large, same)
      | inr (gone, dead) ↦ rw (large, gone) (sym (keep_dead w now m (timestamps key d) le dead))
    ]
  ]

  pub length-timestamps-prune : length (timestamps key (prune w now d)) ≤ length (timestamps key d)
  unfolding prune
  length-timestamps-prune = elim (Bool-cases (ltb prune_above (length d))) [
    | inr small ↦ rw small (omega arith)
    | inl large ↦ elim (timestamps-remove w now d key distinct) [
      | inl same ↦ rw (large, same) (omega arith)
      | inr (gone, dead) ↦ rw (large, gone) (omega arith)
    ]
  ]
