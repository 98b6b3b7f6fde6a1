-- ===== src/Rmp/Malformed.antt =====
-- Proofs on which `verify_rmp_proof` of backend/rmp.py raises instead of returning a verdict.
use minima_pi_net_os.Prelude.{
  str_eq, ◌≡◌, refl, Str, str_beq, codes, true, ◌++◌, beq_iff, type_error,
}
use minima_pi_net_os.Json.{Value, Items, str, arr, obj, nil, cons, end, field, get}
use minima_pi_net_os.Rmp.Flatten.{leaf_hash}
use minima_pi_net_os.Rmp.Verify.{
  raised, position_of, combine_value, fold_sibling, fold_siblings, fold_proof, verify_path,
  verify_named, verify_target, verify_targets, verify_list, verify_fields, verify_rmp_proof,
  expected_root, strip_prefix,
}

module _ (sha256 : Str → Str) where
  -- A proof of one target whose only sibling has the position `position`.
  abbrev pub proof_with_position : Str → Str → Value → Str → Value → Value
  proof_with_position root path value hash position = obj (
      field (codes "schemaVersion") (str (codes "RMP-1")) (
        field (codes "root") (str (codes "sha256:" ++ root)) (
          field (codes "targets")
            (arr (
              cons
                (obj (
                  field (codes "path") (str path) (
                    field (codes "value") value (
                      field (codes "leafHash") (str (leaf_hash sha256 path value)) (
                        field (codes "proof")
                          (arr (
                            cons
                              (obj (
                                field (codes "hash") (str hash)
                                  (field (codes "position") position end)))
                              nil))
                          end)))))
                nil))
            end)))

  same : (s : Str) → str_beq s s ≡ true
  same s = (beq_iff s s).1 refl

  -- A sibling whose position is a list makes the verifier raise `TypeError`, where any other
  -- position that is not "left" or "right" is reported as an invalid sibling.
  pub list_position-raised :
      (root path : Str) (value : Value) (hash : Str) (items : Items)
      → verify_rmp_proof sha256 (proof_with_position root path value hash (arr items))
        ≡ raised type_error
  unfolding verify_rmp_proof verify_fields expected_root strip_prefix verify_list verify_targets
      verify_target verify_named verify_path fold_proof fold_siblings fold_sibling combine_value
      position_of get str_beq
  list_position-raised root path value hash items = rw (same (leaf_hash sha256 path value))
