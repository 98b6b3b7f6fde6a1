-- ===== src/Rmp/Sound.antt =====
-- What a verified proof of backend/rmp.py shows of the state behind its root.
use mathlib.Core.List.{Memᴰ}
use minima_pi_net_os.Prelude.{
  str_eq, ℕ, ◌≡◌, ◌≢◌, ◌⊎◌, refl, ap, sym, subst, ◌∙◌, Str, str_beq, codes, true, List, [], ◌∷◌,
  ◌++◌, arith, beq_iff, Bool-cases, inl, inr, some, drop,
}
use minima_pi_net_os.Json.{Value, Items, Fields, null, str, arr, obj, nil, cons, get, get_or}
use minima_pi_net_os.Rmp.Flatten.{Leaf, flatten_state, leaf_text, leaf_hash, hash_pair, leaf_hashes}
use minima_pi_net_os.Rmp.Levels.{build_levels, root_of}
use minima_pi_net_os.Rmp.Fold.{Position, left, right, Sibling, combine, fold_path}
use minima_pi_net_os.Rmp.Accept.{Accepted, AllAccepted, verify-targets}
use minima_pi_net_os.Rmp.Verify.{valid, verify_rmp_proof}
use minima_pi_net_os.Rmp.Honest.{
  is_colon_free, first_part, last_part, Collision, Honest, empty, leaf, node, root-Honest,
}

abbrev first : Str → ℕ
first [] = 0
first (c ∷ s) = c

text-cases : (a b : Str) → (a ≡ b) ⊎ (a ≢ b)
text-cases a b = elim (Bool-cases (str_beq a b)) [
  | inl same ↦ inl ((beq_iff a b).0 same)
  | inr other ↦ inr (λ e. cc (other, (beq_iff a b).1 e))
]

module _ (leaves : List Leaf) where
  -- The target stands for a leaf: one of the same path and value, as far as the hashed text tells.
  pub record Proven (path : Str) (target : Value) : Type 0 where
    pub fields : Fields
    pub is_fields : target ≡ obj fields
    pub is_path : get (codes "path") fields ≡ some (str path)
    pub source : Leaf
    pub is_leaf : Memᴰ source leaves
    pub same_text :
        leaf_text path (get_or (get (codes "value") fields) null) ≡ leaf_text source.0 source.1

  abbrev pub AllProven : Items → List Str → Type 0
  AllProven nil [] = Unit
  AllProven (cons t targets) (p ∷ paths) = Proven p t × AllProven targets paths
  AllProven _ _ = ⊥

module _ (sha256 : Str → Str) (hex : (s : Str) → is_colon_free (sha256 s) ≡ true) where
  -- Equal hashes come from equal texts, or are a collision.
  unhash : (a b : Str) → sha256 a ≡ sha256 b → Collision sha256 ⊎ (a ≡ b)
  unhash a b e = elim (text-cases a b) [ inl same ↦ inr same | inr other ↦ inl (a, b, other, e) ]

  combine-is_colon_free :
      (p : Position) (hash c : Str) → is_colon_free (combine sha256 p hash c) ≡ true
  combine-is_colon_free left hash c = hex _
  combine-is_colon_free right hash c = hex _

  module _ {leaves : List Leaf} where
    Honest-is_colon_free : {h : Str} → Honest sha256 leaves h → is_colon_free h ≡ true
    Honest-is_colon_free (empty e) = ap is_colon_free e ∙ hex _
    Honest-is_colon_free (leaf l m e) = ap is_colon_free e ∙ hex _
    Honest-is_colon_free (node a b ha hb e) = ap is_colon_free e ∙ hex _

    -- The left and the right hash below an honest hash of a pair.
    below :
        {h : Str} (l r : Str)
        → Honest sha256 leaves h
        → h ≡ hash_pair sha256 l r
        → Collision sha256
          ⊎ ((a b : Str) × Honest sha256 leaves a
              × Honest sha256 leaves b
              × (l ++ b':' ∷ r ≡ a ++ b':' ∷ b))
    below l r (empty e) k = elim (unhash _ _ (sym e ∙ k)) [
      | inl found ↦ inl found
      | inr same ↦ absurd (omega (arith, ap first same))
    ]
    below l r (leaf m among e) k = elim (unhash _ _ (sym e ∙ k)) [
      | inl found ↦ inl found
      | inr same ↦ absurd (omega (arith, ap first same))
    ]
    below l r (node a b ha hb e) k = elim (unhash _ _ (sym k ∙ e)) [
      | inl found ↦ inl found
      | inr same ↦ inr (a, b, ha, hb, ap (drop 5) same)
    ]

    -- A hash that gives an honest one with some sibling is honest.
    down_one :
        (p : Position) (hash c : Str)
        → is_colon_free c ≡ true
        → Honest sha256 leaves (combine sha256 p hash c)
        → Collision sha256 ⊎ Honest sha256 leaves c
    down_one left hash c free h = elim (below hash c h refl) [
      | inl found ↦ inl found
      | inr (a, b, ha, hb, e) ↦ inr (
          subst (Honest sha256 leaves) (sym (last_part hash a c b free (Honest-is_colon_free hb) e))
            hb)
    ]
    down_one right hash c free h = elim (below c hash h refl) [
      | inl found ↦ inl found
      | inr (a, b, ha, hb, e) ↦ inr (
          subst (Honest sha256 leaves)
            (sym (first_part c a hash b free (Honest-is_colon_free ha) e)) ha)
    ]

    -- An honest hash at the end of a path of siblings has honest hashes all the way.
    down :
        (c : Str) (path : List Sibling)
        → is_colon_free c ≡ true
        → Honest sha256 leaves (fold_path sha256 c path)
        → Collision sha256 ⊎ Honest sha256 leaves c
    unfolding fold_path
    down c [] free h = inr h
    down c (s ∷ path) free h =
        elim (down (combine sha256 s.position s.hash c) path
          (combine-is_colon_free s.position s.hash c) h) [
            | inl found ↦ inl found
            | inr h' ↦ down_one s.position s.hash c free h'
          ]

    -- An honest hash of a leaf's text is the hash of a leaf of the tree, of the same text.
    leaf_below :
        {h : Str} (path : Str) (value : Value)
        → Honest sha256 leaves h
        → h ≡ leaf_hash sha256 path value
        → Collision sha256
          ⊎ ((l : Leaf) × Memᴰ l leaves × (leaf_text path value ≡ leaf_text l.0 l.1))
    leaf_below path value (empty e) k = elim (unhash _ _ (sym e ∙ k)) [
      | inl found ↦ inl found
      | inr same ↦ absurd (omega (arith, ap first same))
    ]
    leaf_below path value (node a b ha hb e) k = elim (unhash _ _ (sym e ∙ k)) [
      | inl found ↦ inl found
      | inr same ↦ absurd (omega (arith, ap first same))
    ]
    leaf_below path value (leaf l m e) k = elim (unhash _ _ (sym k ∙ e)) [
      | inl found ↦ inl found
      | inr same ↦ inr (l, m, same)
    ]

  module _ (leaves : List Leaf) where
    Accepted-Proven :
        (path : Str) (target : Value)
        → Accepted sha256 (root_of (build_levels sha256 (leaf_hashes sha256 leaves))) path target
        → Collision sha256 ⊎ Proven leaves path target
    Accepted-Proven path target a =
        let value = get_or (get (codes "value") a.fields) null in
        let h = leaf_hash sha256 path value in
        elim (down h a.opens.steps (hex _)
          (subst (Honest sha256 leaves) (sym a.opens.leads) (root-Honest sha256 leaves))) [
            | inl found ↦ inl found
            | inr honest ↦ elim (leaf_below path value honest refl) [
              | inl found ↦ inl found
              | inr (l, m, same) ↦ inr (record {
                fields = a.fields;
                is_fields = a.is_fields;
                is_path = a.is_path;
                source = l;
                is_leaf = m;
                same_text = same;
              })
            ]
          ]

    AllAccepted-AllProven :
        (targets : Items) (paths : List Str)
        → AllAccepted sha256
            (root_of (build_levels sha256 (leaf_hashes sha256 leaves)))
            targets
            paths
        → Collision sha256 ⊎ AllProven leaves targets paths
    AllAccepted-AllProven nil [] h = inr tt
    AllAccepted-AllProven nil (p ∷ paths) h = absurd h
    AllAccepted-AllProven (cons t targets) [] h = absurd h
    AllAccepted-AllProven (cons t targets) (p ∷ paths) h = elim (Accepted-Proven p t h.0) [
      | inl found ↦ inl found
      | inr first' ↦ elim (AllAccepted-AllProven targets paths h.1) [
        | inl found ↦ inl found
        | inr rest ↦ inr (first', rest)
      ]
    ]

  -- If a proof with the root of a state is accepted, however it was made, then each of its targets
  -- stands for a leaf of the state, of the same hashed text, or two texts with one SHA-256 hash are
  -- found. (SHA-256 is any function whose values have no colon.)
  pub verify_sound :
      (state : Value) (proof : Fields) (targets : Items) (paths : List Str)
      → let leaves = flatten_state state [] in
        let root = root_of (build_levels sha256 (leaf_hashes sha256 leaves)) in
        verify_rmp_proof sha256 (obj proof) ≡ valid paths
        → get (codes "root") proof ≡ some (str (codes "sha256:" ++ root))
        → get (codes "targets") proof ≡ some (arr targets)
        → Collision sha256 ⊎ AllProven leaves targets paths
  verify_sound state proof targets paths h is_root is_targets =
      let leaves = flatten_state state [] in
      AllAccepted-AllProven leaves targets paths (
        verify-targets sha256 proof (root_of (build_levels sha256 (leaf_hashes sha256 leaves)))
          targets h is_root is_targets)
