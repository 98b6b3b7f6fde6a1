-- ===== src/Rmp/Fold.antt =====
-- The sibling of a hash at each level, as `build_rmp_proof` of backend/rmp.py finds it, and the hash
-- that `verify_rmp_proof` computes from the siblings.
use minima_pi_net_os.Prelude.{
  nat_eq, ℕ, zero, suc, ◌+◌, ◌-◌, ◌/◌, ◌%◌, ◌≤◌, ◌<◌, ◌≡◌, refl, ap, ◌∙◌, Str, List, [], ◌∷◌,
  length, get_or, arith, ltb, leb, ◌==◌, Bool-cases, inl, inr, if◌then◌else◌,
}
use minima_pi_net_os.Rmp.Flatten.{hash_pair}
use minima_pi_net_os.Rmp.Levels.{
  next_level, levels_above, build_levels, top_level, root_of, length-next_level,
}

pub data Position : Type 0 where
  left right : Position

pub record Sibling : Type 0 where
  pub position : Position
  pub hash : Str

-- `cursor - 1 if cursor % 2 else cursor + 1`, and the cursor itself where that is out of range
unfoldable pub sibling_index : ℕ → ℕ → ℕ
sibling_index cursor size =
    let neighbour = if cursor % 2 == 0 then cursor + 1 else cursor - 1 in
    if leb size neighbour then cursor else neighbour

unfoldable pub sibling : List Str → ℕ → Sibling
unfolding sibling_index
sibling level cursor =
    let index = sibling_index cursor (length level) in
    record { position = if ltb index cursor then left else right; hash = get_or level index [] }

-- `for level in levels[:-1]`
unfoldable pub proof_path : List (List Str) → ℕ → List Sibling
unfolding sibling
proof_path [] cursor = []
proof_path (level ∷ []) cursor = []
proof_path (level ∷ next ∷ levels) cursor =
    sibling level cursor ∷ proof_path (next ∷ levels) (cursor / 2)

module _ (sha256 : Str → Str) where
  abbrev pub combine : Position → Str → Str → Str
  combine left hash computed = hash_pair sha256 hash computed
  combine right hash computed = hash_pair sha256 computed hash

  -- `for sibling in proof_path`
  unfoldable pub fold_path : Str → List Sibling → Str
  fold_path computed [] = computed
  fold_path computed (s ∷ path) = fold_path (combine s.position s.hash computed) path

sibling_index-suc-suc :
    (i n : ℕ) → sibling_index (suc (suc i)) (suc (suc n)) ≡ suc (suc (sibling_index i n))
unfolding sibling_index
sibling_index-suc-suc i n = ground arith

-- Two hashes in front move the sibling two places.
sibling-suc-suc :
    (x y : Str) (level : List Str) (i : ℕ) → sibling (x ∷ y ∷ level) (suc (suc i)) ≡ sibling level i
unfolding sibling
sibling-suc-suc x y level i = rw sibling_index-suc-suc (ground arith)

sibling-first :
    (x y : Str) (level : List Str)
    → sibling (x ∷ y ∷ level) 0 ≡ record { position = right; hash = y }
unfolding sibling
sibling-first x y level =
    let e : sibling_index 0 (suc (suc (length level))) ≡ 1 = unfold sibling_index in ground arith in
    rw e

sibling-second :
    (x y : Str) (level : List Str)
    → sibling (x ∷ y ∷ level) 1 ≡ record { position = left; hash = x }
unfolding sibling
sibling-second x y level =
    let e : sibling_index 1 (suc (suc (length level))) ≡ 0 = unfold sibling_index in ground arith in
    rw e

half-suc-suc : (i : ℕ) → suc (suc i) / 2 ≡ suc (i / 2)
half-suc-suc i = omega arith

module _ (sha256 : Str → Str) where
  -- A hash and its sibling give the hash above them.
  pub combine-sibling :
      (level : List Str) (i : ℕ)
      → i < length level
      → combine sha256 (sibling level i).position (sibling level i).hash (get_or level i [])
        ≡ get_or (next_level sha256 level) (i / 2) []
  unfolding next_level
  combine-sibling [] i h = absurd (omega arith)
  combine-sibling (x ∷ []) zero h = unfold sibling sibling_index in refl
  combine-sibling (x ∷ []) (suc i) h = absurd (omega arith)
  combine-sibling (x ∷ y ∷ level) zero h = rw sibling-first
  combine-sibling (x ∷ y ∷ level) (suc zero) h = rw sibling-second
  combine-sibling (x ∷ y ∷ level) (suc (suc i)) h =
      rw (sibling-suc-suc, half-suc-suc) (combine-sibling level i (omega arith))

  -- From a hash of a level, the siblings lead to the hash at the top.
  climb :
      (fuel : ℕ) (level : List Str) (i : ℕ)
      → i < length level
      → length level ≤ suc fuel
      → let levels = level ∷ levels_above sha256 fuel level in
        fold_path sha256 (get_or level i []) (proof_path levels i) ≡ root_of levels
  unfolding fold_path proof_path root_of top_level levels_above
  climb zero level zero inside few = refl
  climb zero level (suc i) inside few = absurd (omega arith)
  climb (suc fuel) level i inside few = elim (Bool-cases (ltb 1 (length level))) [
    | inr one ↦ rw one (let e : i ≡ 0 = ground arith in rw e)
    | inl more ↦ rw more (
        ap
          (λ h. fold_path sha256 h (
            proof_path
              (next_level sha256 level ∷ levels_above sha256 fuel (next_level sha256 level))
              (i / 2)))
          (combine-sibling level i inside)
        ∙ climb fuel (next_level sha256 level) (i / 2)
            (ground (arith, length-next_level sha256 level))
            (ground (arith, length-next_level sha256 level)))
  ]

  -- The siblings of the `i`-th hash lead to the root.
  pub fold-proof_path :
      (hashes : List Str) (i : ℕ)
      → i < length hashes
      → let levels = build_levels sha256 hashes in
        fold_path sha256 (get_or hashes i []) (proof_path levels i) ≡ root_of levels
  unfolding build_levels
  fold-proof_path [] i inside = absurd (omega arith)
  fold-proof_path (h ∷ hs) i inside = climb (length (h ∷ hs)) (h ∷ hs) i inside (omega arith)
