-- ===== src/Rmp/Consensus.antt =====
-- `verify_rnpe2_consensus` of backend/rmp.py.
use minima_pi_net_os.Prelude.{
  str_eq, ◌≡◌, ◌⊎◌, refl, sym, ap, ◌∙◌, Str, codes, String, Bool, true, false, ◌&&◌, some, List, [],
  ◌++◌, Result, ok, raise, ◌>>=◌, arith, inl, inr, if◌then◌else◌,
}
use minima_pi_net_os.Json.{Value, Items, Fields, null, str, arr, obj, get, get_or}
use minima_pi_net_os.Rmp.Accept.{verify-IsProof}
use minima_pi_net_os.Rmp.Flatten.{flatten_state, leaf_hashes}
use minima_pi_net_os.Rmp.Honest.{is_colon_free, Collision}
use minima_pi_net_os.Rmp.Levels.{build_levels, root_of}
use minima_pi_net_os.Rmp.Sound.{AllProven, verify_sound}
use minima_pi_net_os.Rmp.Verify.{Checked, valid, invalid, raised, verify_rmp_proof}

-- `result.get("valid", False)`
abbrev pub is_valid {ℓ} : {A : Type ℓ} → Checked A → Result Bool
is_valid (valid a) = ok true
is_valid (invalid reason path) = ok false
is_valid (raised e) = raise e

pub record Consensus : Type 0 where
  pub local_valid : Bool
  pub peer_valid : Bool
  pub local_root : Value
  pub peer_root : Value
  pub consensus_match : Bool
  pub reason : String

-- `same_value` is Python's `==` on JSON values.
module _ (sha256 : Str → Str) (same_value : Value → Value → Bool) where
  -- The result, from what the two verifications gave and the two roots.
  abbrev consensus_of : Checked (List Str) → Checked (List Str) → Value → Value → Result Consensus
  consensus_of local_result peer_result local_root peer_root = do
    local_valid ← is_valid local_result
    peer_valid ← is_valid peer_result
    let roots_match = same_value local_root peer_root
    ok (record {
      local_valid = local_valid;
      peer_valid = peer_valid;
      local_root = local_root;
      peer_root = peer_root;
      consensus_match = local_valid && (peer_valid && roots_match);
      reason = if roots_match then "roots match" else "roots differ";
    })

  unfoldable pub verify_rnpe2_consensus : Fields → Fields → Result Consensus
  verify_rnpe2_consensus local_proof peer_proof =
      consensus_of (verify_rmp_proof sha256 (obj local_proof))
        (verify_rmp_proof sha256 (obj peer_proof)) (get_or (get (codes "root") local_proof) null)
        (get_or (get (codes "root") peer_proof) null)

  consensus-valid :
      (local_result peer_result : Checked (List Str)) (local_root peer_root : Value) {c : Consensus}
      → consensus_of local_result peer_result local_root peer_root ≡ ok c
      → c.consensus_match ≡ true
      → (paths : List Str) × (peer_result ≡ valid paths) × (same_value local_root peer_root ≡ true)
  consensus-valid (valid ps) (valid paths) local_root peer_root h m = (paths, refl, ground arith)
  consensus-valid (valid ps) (invalid reason path) local_root peer_root h m = absurd (ground arith)
  consensus-valid (valid ps) (raised e) local_root peer_root h m = absurd (cc)
  consensus-valid (invalid reason path) (valid paths) local_root peer_root h m =
      absurd (ground arith)
  consensus-valid (invalid reason path) (invalid r p) local_root peer_root h m =
      absurd (ground arith)
  consensus-valid (invalid reason path) (raised e) local_root peer_root h m = absurd (cc)
  consensus-valid (raised e) peer_result local_root peer_root h m = absurd (cc)

  -- If a peer's proof is in consensus with a local proof that has the root of a state, then the
  -- peer's proof has been accepted, with that same root, and each of its targets stands for a leaf
  -- of the state, or two texts with one SHA-256 hash are found. Of Python's `==` it is used that
  -- two texts are equal only if they are the same, and of SHA-256 that its values have no colon.
  pub consensus_sound :
      ((s t : Str) → same_value (str s) (str t) ≡ true → s ≡ t)
      → ((s : Str) → is_colon_free (sha256 s) ≡ true)
      → (state : Value) (local_proof peer_proof : Fields) (c : Consensus)
      → let leaves = flatten_state state [] in
        let root = codes "sha256:" ++ root_of (build_levels sha256 (leaf_hashes sha256 leaves)) in
        get (codes "root") local_proof ≡ some (str root)
        → verify_rnpe2_consensus local_proof peer_proof ≡ ok c
        → c.consensus_match ≡ true
        → Collision sha256
          ⊎ ((targets : Items) × (paths : List Str) × (get (codes "root") peer_proof
                ≡ some (str root))
              × (get (codes "targets") peer_proof ≡ some (arr targets))
              × AllProven leaves targets paths)
  unfolding verify_rnpe2_consensus
  consensus_sound same hex state local_proof peer_proof c is_root h m =
      let leaves = flatten_state state [] in
      let root = codes "sha256:" ++ root_of (build_levels sha256 (leaf_hashes sha256 leaves)) in
      let (paths, accepted, match) =
        consensus-valid (verify_rmp_proof sha256 (obj local_proof))
          (verify_rmp_proof sha256 (obj peer_proof)) (get_or (get (codes "root") local_proof) null)
          (get_or (get (codes "root") peer_proof) null) h m in
      let p = verify-IsProof sha256 peer_proof accepted in
      let equal = same root (codes "sha256:" ++ p.root) (rw (is_root, p.is_root) at match) in
      let peer_root = p.is_root ∙ ap (λ s. some (str s)) (sym equal) in
      elim (verify_sound sha256 hex state peer_proof p.targets paths accepted peer_root
        p.is_targets) [
          | inl found ↦ inl found
          | inr proven ↦ inr (p.targets, paths, peer_root, p.is_targets, proven)
        ]
