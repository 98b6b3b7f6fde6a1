-- ===== src/Rmp/Build.antt =====
-- `build_rmp_proof` of backend/rmp.py. `now` is the clock's reading in milliseconds.
use minima_pi_net_os.Prelude.{
  str_eq, ℕ, suc, ◌-◌, Str, codes, List, [], ◌∷◌, ◌++◌, map, length, if◌then◌else◌,
}
use minima_pi_net_os.Dict.Distinct.{mem}
use minima_pi_net_os.Prelude.Int.{pos}
use minima_pi_net_os.Json.{Value, int, str, arr, obj, end, field, items}
use minima_pi_net_os.Rmp.Flatten.{Leaf, flatten_state, leaf_hash, leaf_hashes}
use minima_pi_net_os.Rmp.Levels.{build_levels, root_of}
use minima_pi_net_os.Rmp.Fold.{Position, left, right, Sibling, proof_path}

abbrev pub position_text : Position → Str
position_text left = codes "left"
position_text right = codes "right"

abbrev pub sibling_value : Sibling → Value
sibling_value s = obj (
    field (codes "position") (str (position_text s.position))
      (field (codes "hash") (str s.hash) end))

-- `requested_paths or [path for path, _ in leaves]`
abbrev pub wanted : List Str → List Leaf → List Str
wanted [] leaves = map (λ leaf. leaf.0) leaves
wanted (path ∷ paths) leaves = path ∷ paths

module _ (sha256 : Str → Str) where
  abbrev pub target_value : List (List Str) → ℕ → Leaf → Value
  target_value levels index (path, value) = obj (
      field (codes "path") (str path) (
        field (codes "value") value (
          field (codes "leafHash") (str (leaf_hash sha256 path value)) (
            field (codes "proof") (arr (items (map sibling_value (proof_path levels index))))
              end))))

  -- `for leaf_index, (path, value) in enumerate(leaves)`
  unfoldable pub build_targets : List Str → List (List Str) → ℕ → List Leaf → List Value
  build_targets paths levels index [] = []
  build_targets paths levels index (leaf ∷ leaves) =
      let rest = build_targets paths levels (suc index) leaves in
      if mem leaf.0 paths then target_value levels index leaf ∷ rest else rest

  unfoldable pub build_rmp_proof : Value → List Str → ℕ → Value
  build_rmp_proof state requested_paths now =
      let leaves = flatten_state state [] in
      let levels = build_levels sha256 (leaf_hashes sha256 leaves) in
      let targets = build_targets (wanted requested_paths leaves) levels 0 leaves in
      obj (
        field (codes "schemaVersion") (str (codes "RMP-1")) (
          field (codes "type") (str (codes "recursive-merkle-proof")) (
            field (codes "generatedAt") (int (pos now)) (
              field (codes "root") (str (codes "sha256:" ++ root_of levels)) (
                field (codes "leafCount") (int (pos (length leaves))) (
                  field (codes "targetCount") (int (pos (length targets))) (
                    field (codes "omittedLeaves") (int (pos (length leaves - length targets)))
                      (field (codes "targets") (arr (items targets)) end))))))))
