-- ===== src/Rmp/Complete.antt =====
-- The proofs that `build_rmp_proof` of backend/rmp.py builds, under `verify_rmp_proof`.
use minima_pi_net_os.Prelude.{
  str_eq, ℕ, suc, ◌+◌, ◌<◌, ◌≡◌, refl, ap, Str, str_beq, true, none, List, [], ◌∷◌, map, length,
  get_or, keep, arith, beq_iff, Bool-cases, inl, inr,
}
use minima_pi_net_os.Dict.Distinct.{mem}
use minima_pi_net_os.Json.{Value, arr, items, get}
use minima_pi_net_os.Rmp.Flatten.{Leaf, flatten_state, leaf_hash, leaf_hashes}
use minima_pi_net_os.Rmp.Levels.{build_levels, root_of}
use minima_pi_net_os.Rmp.Fold.{
  Position, left, right, Sibling, combine, proof_path, fold_path, fold-proof_path,
}
use minima_pi_net_os.Rmp.Verify.{
  Checked, valid, invalid, position_of, combine_value, fold_sibling, fold_siblings, fold_proof,
  verify_path, verify_named, verify_target, verify_targets, verify_list, verify_fields,
  verify_rmp_proof, expected_root, strip_prefix,
}
use minima_pi_net_os.Rmp.Build.{sibling_value, wanted, target_value, build_targets, build_rmp_proof}

-- The paths of the leaves that are wanted, in the order of the leaves.
abbrev pub selected : List Str → List Leaf → List Str
selected paths leaves = keep (λ path. mem path paths) (map (λ leaf. leaf.0) leaves)

-- What the verifier says of a proof with these targets, if each of them is right.
abbrev pub verdict : List Str → Checked (List Str)
verdict [] = invalid "missing RMP targets" none
verdict (path ∷ paths) = valid (path ∷ paths)

same : (s : Str) → str_beq s s ≡ true
same s = (beq_iff s s).1 refl

module _ (sha256 : Str → Str) where
  fold_sibling-built :
      (path computed : Str) (position : Position) (hash : Str)
      → fold_sibling sha256 path computed
          (sibling_value (record { position = position; hash = hash }))
        ≡ valid (combine sha256 position hash computed)
  unfolding fold_sibling combine_value position_of get str_beq
  fold_sibling-built path computed left hash = refl
  fold_sibling-built path computed right hash = refl

  fold_siblings-built :
      (path computed : Str) (siblings : List Sibling)
      → fold_siblings sha256 path computed (items (map sibling_value siblings))
        ≡ valid (fold_path sha256 computed siblings)
  unfolding fold_siblings fold_path
  fold_siblings-built path computed [] = refl
  fold_siblings-built path computed (s ∷ siblings) =
      rw (fold_sibling-built path computed s.position s.hash)
        (fold_siblings-built path (combine sha256 s.position s.hash computed) siblings)

  verify_target-built :
      (root : Str) (levels : List (List Str)) (index : ℕ) (path : Str) (value : Value)
      → fold_path sha256 (leaf_hash sha256 path value) (proof_path levels index) ≡ root
      → verify_target sha256 root (target_value sha256 levels index (path, value)) ≡ valid path
  unfolding verify_target verify_named verify_path fold_proof get str_beq
  verify_target-built root levels index path value leads =
      rw (same (leaf_hash sha256 path value), fold_siblings-built, leads) (rw (same root))

  -- Each leaf of a list, the first of which stands at `index`, leads to the root.
  abbrev LeadsTo : Str → List (List Str) → ℕ → List Leaf → Type 0
  LeadsTo root levels index [] = Unit
  LeadsTo root levels index ((path, value) ∷ leaves) =
      (fold_path sha256 (leaf_hash sha256 path value) (proof_path levels index) ≡ root)
      × LeadsTo root levels (suc index) leaves

  verify_targets-built :
      (paths : List Str) (root : Str) (levels : List (List Str)) (index : ℕ) (leaves : List Leaf)
      → LeadsTo root levels index leaves
      → verify_targets sha256 root (items (build_targets sha256 paths levels index leaves))
        ≡ valid (selected paths leaves)
  unfolding verify_targets build_targets keep
  verify_targets-built paths root levels index [] lead = refl
  verify_targets-built paths root levels index ((path, value) ∷ leaves) lead =
      let rest = verify_targets-built paths root levels (suc index) leaves lead.1 in
      elim (Bool-cases (mem path paths)) [
        | inl wanted' ↦
            rw wanted' (rw (verify_target-built root levels index path value lead.0, rest) refl)
        | inr other ↦ rw other rest
      ]

  leads_to :
      (hashes : List Str) (levels : List (List Str)) (root : Str) (index : ℕ) (leaves : List Leaf)
      → ((k : ℕ)
          → k < length leaves
          → fold_path sha256
              (get_or (leaf_hashes sha256 leaves) k [])
              (proof_path levels (index + k))
            ≡ root)
      → LeadsTo root levels index leaves
  leads_to hashes levels root index [] h = tt
  leads_to hashes levels root index ((path, value) ∷ leaves) h =
      let here : index + 0 ≡ index = omega arith in
      (
        rw here at (h 0 (omega arith)),
        leads_to hashes levels root (suc index) leaves (λ k inside.
            let there : index + suc k ≡ suc index + k = omega arith in
            rw there at (h (suc k) (omega arith))),
      )

  length-leaf_hashes : (leaves : List Leaf) → length (leaf_hashes sha256 leaves) ≡ length leaves
  length-leaf_hashes [] = refl
  length-leaf_hashes ((path, value) ∷ leaves) = ap suc (length-leaf_hashes leaves)

  verify_list-verdict :
      (root : Str) (targets : List Value) (paths : List Str)
      → verify_targets sha256 root (items targets) ≡ valid paths
      → verify_list sha256 root (arr (items targets)) ≡ verdict paths
  unfolding verify_targets verify_list
  verify_list-verdict root [] [] h = refl
  verify_list-verdict root [] (p ∷ ps) h = absurd (cc)
  verify_list-verdict root (t ∷ ts) [] h = absurd (ground arith)
  verify_list-verdict root (t ∷ ts) (p ∷ ps) h = h

  -- Whatever the state, the requested paths and the time, the verifier accepts the built proof, with
  -- the paths of exactly the leaves that were requested; where no leaf was, it reports missing
  -- targets.
  pub verify-build :
      (state : Value) (requested_paths : List Str) (now : ℕ)
      → let leaves = flatten_state state [] in
        verify_rmp_proof sha256 (build_rmp_proof sha256 state requested_paths now)
        ≡ verdict (selected (wanted requested_paths leaves) leaves)
  unfolding verify_rmp_proof verify_fields expected_root strip_prefix get str_beq build_rmp_proof
  verify-build state requested_paths now =
      let leaves = flatten_state state [] in
      let hashes = leaf_hashes sha256 leaves in
      let levels = build_levels sha256 hashes in
      let lead = leads_to hashes levels (root_of levels) 0 leaves (λ k inside.
        let at : 0 + k ≡ k = omega arith in
        rw at (fold-proof_path sha256 hashes k (omega (arith, length-leaf_hashes leaves)))) in
      verify_list-verdict (root_of levels)
        (build_targets sha256 (wanted requested_paths leaves) levels 0 leaves)
        (selected (wanted requested_paths leaves) leaves)
        (verify_targets-built (wanted requested_paths leaves) (root_of levels) levels 0 leaves lead)
