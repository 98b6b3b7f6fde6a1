-- ===== src/Rmp/Levels.antt =====
-- `_build_levels` of backend/rmp.py.
use minima_pi_net_os.Prelude.{
  ℕ, zero, suc, ◌+◌, ◌/◌, ◌≤◌, ◌<◌, ◌≡◌, refl, Str, codes, List, [], ◌∷◌, length, get_or, arith,
  ltb, Bool-cases, inl, inr, if◌then◌else◌,
}
use minima_pi_net_os.Rmp.Flatten.{hash_pair}

module _ (sha256 : Str → Str) where
  -- The body of the `while` loop: an odd hash at the end is paired with itself.
  unfoldable pub next_level : List Str → List Str
  next_level [] = []
  next_level (left ∷ []) = hash_pair sha256 left left ∷ []
  next_level (left ∷ right ∷ rest) = hash_pair sha256 left right ∷ next_level rest

  -- `while len(current) > 1`, on fuel: the levels that the loop appends.
  unfoldable pub levels_above : ℕ → List Str → List (List Str)
  levels_above zero current = []
  levels_above (suc fuel) current =
      let above = next_level current ∷ levels_above fuel (next_level current) in
      if ltb 1 (length current) then above else []

  -- A level has at least one hash less than the one below, so its length is fuel enough.
  unfoldable pub build_levels : List Str → List (List Str)
  unfolding levels_above next_level
  build_levels [] = (sha256 (codes "empty:rmp") ∷ []) ∷ []
  build_levels (h ∷ hs) = (h ∷ hs) ∷ levels_above (length (h ∷ hs)) (h ∷ hs)

  pub length-next_level : (level : List Str) → length (next_level level) ≡ (length level + 1) / 2
  unfolding next_level
  length-next_level [] = omega arith
  length-next_level (left ∷ []) = omega arith
  length-next_level (left ∷ right ∷ rest) = omega (arith, length-next_level rest)

-- `levels[-1]`
unfoldable pub top_level : List (List Str) → List Str
top_level [] = []
top_level (level ∷ []) = level
top_level (level ∷ next ∷ levels) = top_level (next ∷ levels)

-- `levels[-1][0]`
unfoldable pub root_of : List (List Str) → Str
unfolding top_level
root_of levels = get_or (top_level levels) 0 []

module _ (sha256 : Str → Str) where
  -- With fuel for its length, the loop ends at a level of one hash.
  loop_ends :
      (fuel : ℕ) (level : List Str)
      → 0 < length level
      → length level ≤ suc fuel
      → length (top_level (level ∷ levels_above sha256 fuel level)) ≡ 1
  unfolding top_level levels_above
  loop_ends zero level some few = omega arith
  loop_ends (suc fuel) level some few = elim (Bool-cases (ltb 1 (length level))) [
    | inr one ↦ rw one (ground arith)
    | inl more ↦ rw more (
        loop_ends fuel (next_level sha256 level) (ground (arith, length-next_level sha256 level))
          (ground (arith, length-next_level sha256 level)))
  ]

  -- The loop of `_build_levels` ends whatever the hashes are: the number of hashes with which it is
  -- bounded here suffices, and the last level that it has built consists of one hash.
  pub top-build_levels : (hashes : List Str) → length (top_level (build_levels sha256 hashes)) ≡ 1
  unfolding build_levels top_level
  top-build_levels [] = refl
  top-build_levels (h ∷ hs) = loop_ends (length (h ∷ hs)) (h ∷ hs) (omega arith) (omega arith)
