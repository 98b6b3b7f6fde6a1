-- ===== src/Rmp/Honest.antt =====
-- The hashes of a Merkle tree of backend/rmp.py, and texts in which a colon separates hashes.
use mathlib.Core.List.{Memᴰ}
use minima_pi_net_os.Prelude.{
  str_eq, nat_eq, ℕ, zero, suc, ◌<◌, ◌≡◌, ◌≢◌, refl, ap, Str, codes, Bool, true, false, not, ◌&&◌,
  List, [], ◌∷◌, ◌++◌, length, get_or, arith, ◌==◌, Bool-cases, inl, inr, ltb,
}
use minima_pi_net_os.Rmp.Flatten.{Leaf, leaf_hash, hash_pair, leaf_hashes}
use minima_pi_net_os.Rmp.Levels.{
  next_level, levels_above, build_levels, top_level, root_of, top-build_levels,
}

-- `":" not in s`
unfoldable pub is_colon_free : Str → Bool
is_colon_free [] = true
is_colon_free (c ∷ s) = not (c == b':') && is_colon_free s

colon-is_colon_free : (s t : Str) → is_colon_free (s ++ b':' ∷ t) ≡ false
unfolding is_colon_free
colon-is_colon_free [] t = refl
colon-is_colon_free (c ∷ s) t = ground (arith, colon-is_colon_free s t)

-- What stands behind the last colon.
pub last_part :
    (l a r b : Str)
    → is_colon_free r ≡ true
    → is_colon_free b ≡ true
    → l ++ b':' ∷ r ≡ a ++ b':' ∷ b
    → r ≡ b
last_part [] [] r b fr fb e = cc
last_part [] (c ∷ a) r b fr fb e =
    let behind : r ≡ a ++ b':' ∷ b = cc in
    absurd (ground (arith, colon-is_colon_free a b, ap is_colon_free behind))
last_part (c ∷ l) [] r b fr fb e =
    let behind : b ≡ l ++ b':' ∷ r = cc in
    absurd (ground (arith, colon-is_colon_free l r, ap is_colon_free behind))
last_part (c ∷ l) (d ∷ a) r b fr fb e = last_part l a r b fr fb (cc)

-- What stands before the first colon.
pub first_part :
    (l a r b : Str)
    → is_colon_free l ≡ true
    → is_colon_free a ≡ true
    → l ++ b':' ∷ r ≡ a ++ b':' ∷ b
    → l ≡ a
unfolding is_colon_free
first_part [] [] r b fl fa e = refl
first_part [] (c ∷ a) r b fl fa e = absurd (ground arith)
first_part (c ∷ l) [] r b fl fa e = absurd (ground arith)
first_part (c ∷ l) (d ∷ a) r b fl fa e =
    let rest = first_part l a r b (ground arith) (ground arith) (cc) in ground arith

module _ (sha256 : Str → Str) where
  -- Two texts with one hash.
  abbrev pub Collision : Type 0
  Collision = (a : Str) × (b : Str) × (a ≢ b) × (sha256 a ≡ sha256 b)

  -- A hash of the tree over the leaves.
  pub data Honest (leaves : List Leaf) : Str → Type 0 where
    empty : {h : Str} → h ≡ sha256 (codes "empty:rmp") → Honest leaves h
    leaf : {h : Str} (l : Leaf) → Memᴰ l leaves → h ≡ leaf_hash sha256 l.0 l.1 → Honest leaves h
    node :
        {h : Str} (a b : Str)
        → Honest leaves a
        → Honest leaves b
        → h ≡ hash_pair sha256 a b
        → Honest leaves h

  abbrev AllHonest : List Leaf → List Str → Type 0
  AllHonest leaves [] = Unit
  AllHonest leaves (h ∷ hs) = Honest leaves h × AllHonest leaves hs

  leaf_hashes-AllHonest :
      (leaves some : List Leaf)
      → ((l : Leaf) → Memᴰ l some → Memᴰ l leaves)
      → AllHonest leaves (leaf_hashes sha256 some)
  leaf_hashes-AllHonest leaves [] among = tt
  leaf_hashes-AllHonest leaves (l ∷ some) among = (
    leaf l (among l (Memᴰ.head refl)) refl,
    leaf_hashes-AllHonest leaves some (λ k m. among k (Memᴰ.tail m)),
  )

  next_level-AllHonest :
      (leaves : List Leaf) (level : List Str)
      → AllHonest leaves level
      → AllHonest leaves (next_level sha256 level)
  unfolding next_level
  next_level-AllHonest leaves [] h = tt
  next_level-AllHonest leaves (x ∷ []) h = (node x x h.0 h.0 refl, tt)
  next_level-AllHonest leaves (x ∷ y ∷ level) h =
      (node x y h.0 h.1.0 refl, next_level-AllHonest leaves level h.1.1)

  top-AllHonest :
      (leaves : List Leaf) (fuel : ℕ) (level : List Str)
      → AllHonest leaves level
      → AllHonest leaves (top_level (level ∷ levels_above sha256 fuel level))
  unfolding levels_above top_level
  top-AllHonest leaves zero level h = h
  top-AllHonest leaves (suc fuel) level h = elim (Bool-cases (ltb 1 (length level))) [
    | inr one ↦ rw one h
    | inl more ↦
        rw more (
          top-AllHonest leaves fuel (next_level sha256 level) (next_level-AllHonest leaves level h))
  ]

  build_levels-AllHonest :
      (leaves : List Leaf) (hashes : List Str)
      → AllHonest leaves hashes
      → AllHonest leaves (top_level (build_levels sha256 hashes))
  unfolding build_levels top_level
  build_levels-AllHonest leaves [] h = (empty refl, tt)
  build_levels-AllHonest leaves (x ∷ hashes) h =
      top-AllHonest leaves (length (x ∷ hashes)) (x ∷ hashes) h

  first-Honest :
      (leaves : List Leaf) (level : List Str)
      → 0 < length level
      → AllHonest leaves level
      → Honest leaves (get_or level 0 [])
  first-Honest leaves [] some h = absurd (omega arith)
  first-Honest leaves (x ∷ level) some h = h.0

  -- The root of a tree is one of its hashes.
  pub root-Honest :
      (leaves : List Leaf)
      → Honest leaves (root_of (build_levels sha256 (leaf_hashes sha256 leaves)))
  unfolding root_of
  root-Honest leaves =
      let levels = build_levels sha256 (leaf_hashes sha256 leaves) in
      first-Honest leaves (top_level levels)
        (omega (arith, top-build_levels sha256 (leaf_hashes sha256 leaves)))
        (build_levels-AllHonest leaves (leaf_hashes sha256 leaves)
          (leaf_hashes-AllHonest leaves leaves (λ l m. m)))
