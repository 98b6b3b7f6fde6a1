-- ===== src/Rmp/Verify.antt =====
-- `verify_rmp_proof` of backend/rmp.py, on any JSON value.
use minima_pi_net_os.Prelude.{
  str_eq, Str, codes, String, Bool, false, Option, none, some, List, [], ◌∷◌, Exc, type_error,
  nat_eq, ◌==◌, if◌then◌else◌,
}
use minima_pi_net_os.Json.{Value, Items, Fields, null, str, arr, obj, nil, cons, get, get_or}
use minima_pi_net_os.Rmp.Flatten.{leaf_hash}
use minima_pi_net_os.Rmp.Fold.{Position, left, right, combine}

-- The three ways in which the function ends: a result, `{"valid": False, "reason": …}`, with the
-- path where it is given, and an exception.
pub data Checked {ℓ} (A : Type ℓ) : Type ℓ where
  valid : A → Checked A
  invalid : String → Option Str → Checked A
  raised : Exc → Checked A

infixl 5 ◌>>=◌
abbrev pub ◌>>=◌ {ℓ κ} : {A : Type ℓ} {B : Type κ} → Checked A → (A → Checked B) → Checked B
valid a >>= f = f a
invalid reason path >>= f = invalid reason path
raised e >>= f = raised e

-- `value == text`, for a text
abbrev pub is_text : Str → Value → Bool
is_text text (str s) = s == text
is_text text _ = false

-- `s.startswith(prefix)` and `s.removeprefix(prefix)` in one: the rest behind the prefix.
unfoldable pub strip_prefix : Str → Str → Option Str
strip_prefix [] s = some s
strip_prefix (a ∷ p) [] = none
strip_prefix (a ∷ p) (b ∷ s) = let rest = strip_prefix p s in if a == b then rest else none

-- `root` must be a text that starts with "sha256:"; what stands behind is the expected root.
unfoldable pub expected_root : Value → Checked Str
expected_root (str root) = elim (strip_prefix (codes "sha256:") root) [
  | none ↦ invalid "invalid RMP root" none
  | some hash ↦ valid hash
]
expected_root _ = invalid "invalid RMP root" none

-- `position not in {"left", "right"}` hashes the position: a list or an object raises `TypeError`.
unfoldable pub position_of : Str → Value → Checked Position
position_of path (str s) =
    if s == codes "left"
    then valid left
    else if s == codes "right"
    then valid right
    else invalid "invalid RMP sibling" (some path)
position_of path (arr xs) = raised type_error
position_of path (obj fs) = raised type_error
position_of path _ = invalid "invalid RMP sibling" (some path)

module _ (sha256 : Str → Str) where
  -- `isinstance(sibling_hash, str)`, then the position
  unfoldable pub combine_value : Str → Str → Value → Value → Checked Str
  combine_value path computed (str hash) position = do
    side ← position_of path position
    valid (combine sha256 side hash computed)
  combine_value path computed _ position = invalid "invalid RMP sibling" (some path)

  unfoldable pub fold_sibling : Str → Str → Value → Checked Str
  fold_sibling path computed (obj s) =
      combine_value path computed (get_or (get (codes "hash") s) null)
        (get_or (get (codes "position") s) null)
  fold_sibling path computed _ = invalid "invalid RMP sibling" (some path)

  -- `for sibling in proof_path`
  unfoldable pub fold_siblings : Str → Str → Items → Checked Str
  fold_siblings path computed nil = valid computed
  fold_siblings path computed (cons s siblings) =
      fold_sibling path computed s >>= λ computed'. fold_siblings path computed' siblings

  unfoldable pub fold_proof : Str → Str → Value → Checked Str
  fold_proof path computed (arr siblings) = fold_siblings path computed siblings
  fold_proof path computed _ = invalid "invalid RMP proof path" (some path)

  -- The checks of one target, behind its path.
  unfoldable pub verify_path : Str → Str → Fields → Checked Str
  verify_path root path target =
      let computed = leaf_hash sha256 path (get_or (get (codes "value") target) null) in
      if is_text computed (get_or (get (codes "leafHash") target) null)
      then (do
        top ← fold_proof path computed (get_or (get (codes "proof") target) (arr nil))
        (if top == root then valid path else invalid "RMP root mismatch" (some path)))
      else invalid "RMP leaf hash mismatch" (some path)

  unfoldable pub verify_named : Str → Value → Fields → Checked Str
  verify_named root (str path) target = verify_path root path target
  verify_named root _ target = invalid "invalid RMP target path" none

  unfoldable pub verify_target : Str → Value → Checked Str
  verify_target root (obj target) =
      verify_named root (get_or (get (codes "path") target) null) target
  verify_target root _ = invalid "invalid RMP target" none

  -- `for target in targets`: the verified paths
  unfoldable pub verify_targets : Str → Items → Checked (List Str)
  verify_targets root nil = valid []
  verify_targets root (cons t targets) = do
    path ← verify_target root t
    paths ← verify_targets root targets
    valid (path ∷ paths)

  unfoldable pub verify_list : Str → Value → Checked (List Str)
  verify_list root (arr nil) = invalid "missing RMP targets" none
  verify_list root (arr (cons t targets)) = verify_targets root (cons t targets)
  verify_list root _ = invalid "missing RMP targets" none

  unfoldable pub verify_fields : Fields → Checked (List Str)
  verify_fields proof = do
    root ← expected_root (get_or (get (codes "root") proof) (str []))
    verify_list root (get_or (get (codes "targets") proof) null)

  -- The verified paths, where the result is `{"valid": True, …}`; its "root" is the proof's own.
  unfoldable pub verify_rmp_proof : Value → Checked (List Str)
  verify_rmp_proof (obj proof) =
      if is_text (codes "RMP-1") (get_or (get (codes "schemaVersion") proof) null)
      then verify_fields proof
      else invalid "invalid RMP schema" none
  verify_rmp_proof _ = invalid "invalid RMP schema" none
