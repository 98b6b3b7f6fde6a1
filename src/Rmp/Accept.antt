-- ===== src/Rmp/Accept.antt =====
-- What `verify_rmp_proof` of backend/rmp.py has checked of a target that it accepts.
use minima_pi_net_os.Prelude.{
  nat_eq, str_eq, ◌≡◌, refl, sym, ap, ap₂, subst, ◌∙◌, Str, str_beq, codes, Option, none, some,
  List, [], ◌∷◌, ◌++◌, arith, ◌==◌, beq_iff, Bool-cases, Option-cases, inl, inr,
}
use minima_pi_net_os.Json.{Value, Items, Fields, null, str, arr, obj, nil, cons, get, get_or}
use minima_pi_net_os.Rmp.Flatten.{leaf_hash}
use minima_pi_net_os.Rmp.Fold.{Sibling, combine, fold_path}
use minima_pi_net_os.Rmp.Verify.{
  Checked, valid, invalid, raised, ◌>>=◌, is_text, position_of, combine_value, fold_sibling,
  fold_siblings, fold_proof, verify_path, verify_named, verify_target, verify_targets, verify_list,
  verify_fields, verify_rmp_proof, expected_root, strip_prefix,
}

>>=-eq-valid {ℓ κ} :
    {A : Type ℓ} {B : Type κ} (m : Checked A) (f : A → Checked B) {b : B}
    → (m >>= f) ≡ valid b
    → (a : A) × (m ≡ valid a) × (f a ≡ valid b)
>>=-eq-valid (valid a) f h = (a, refl, h)
>>=-eq-valid (invalid reason path) f h = cc
>>=-eq-valid (raised e) f h = cc

abbrev field_or_null : Str → Fields → Value
field_or_null key fs = get_or (get key fs) null

module _ (sha256 : Str → Str) (path : Str) where
  combine_value-valid :
      (computed : Str) (hash position : Value) {next : Str}
      → combine_value sha256 path computed hash position ≡ valid next
      → (s : Sibling) × (combine sha256 s.position s.hash computed ≡ next)
  unfolding combine_value
  combine_value-valid computed (str hash) position h =
      let (side, at, e) = >>=-eq-valid (position_of path position) _ h in
      (record { position = side; hash = hash }, ground arith)
  combine_value-valid computed _ position h = absurd (cc)

  fold_sibling-valid :
      (computed : Str) (s : Value) {next : Str}
      → fold_sibling sha256 path computed s ≡ valid next
      → (s : Sibling) × (combine sha256 s.position s.hash computed ≡ next)
  unfolding fold_sibling
  fold_sibling-valid computed (obj s) h =
      combine_value-valid computed (field_or_null (codes "hash") s)
        (field_or_null (codes "position") s) h
  fold_sibling-valid computed _ h = absurd (cc)

  fold_siblings-valid :
      (computed : Str) (siblings : Items) {top : Str}
      → fold_siblings sha256 path computed siblings ≡ valid top
      → (steps : List Sibling) × (fold_path sha256 computed steps ≡ top)
  unfolding fold_siblings fold_path
  fold_siblings-valid computed nil h = ([], ground arith)
  fold_siblings-valid computed (cons s siblings) h =
      let (next, at, rest) = >>=-eq-valid (fold_sibling sha256 path computed s) _ h in
      let (sibling, e) = fold_sibling-valid computed s at in
      let (steps, leads) = fold_siblings-valid next siblings rest in
      (sibling ∷ steps, ap (λ c. fold_path sha256 c steps) e ∙ leads)

  fold_proof-valid :
      (computed : Str) (proof : Value) {top : Str}
      → fold_proof sha256 path computed proof ≡ valid top
      → (steps : List Sibling) × (fold_path sha256 computed steps ≡ top)
  unfolding fold_proof
  fold_proof-valid computed (arr siblings) h = fold_siblings-valid computed siblings h
  fold_proof-valid computed _ h = absurd (cc)

module _ (sha256 : Str → Str) (root : Str) where
  -- A target whose leaf leads to the root.
  pub record Opens (path : Str) (target : Fields) : Type 0 where
    pub steps : List Sibling
    pub leads :
        fold_path sha256 (leaf_hash sha256 path (get_or (get (codes "value") target) null)) steps
        ≡ root

  verify_path-Opens :
      (path : Str) (target : Fields) {p : Str}
      → verify_path sha256 root path target ≡ valid p
      → (p ≡ path) × Opens path target
  unfolding verify_path
  verify_path-Opens path target {p} h =
      let computed = leaf_hash sha256 path (field_or_null (codes "value") target) in
      let proof = get_or (get (codes "proof") target) (arr nil) in
      elim (Bool-cases (is_text computed (field_or_null (codes "leafHash") target))) [
        | inr other ↦ absurd (cc (rw other at h))
        | inl same ↦
            let (top, at, rest) =
              >>=-eq-valid (fold_proof sha256 path computed proof) _ (rw same at h) in
            let (steps, leads) = fold_proof-valid sha256 path computed proof at in
            elim (Bool-cases (str_beq top root)) [
              | inr off ↦ absurd (cc (rw off at rest))
              | inl on ↦
                  let found : path ≡ p = ground arith in
                  (sym found, record { steps = steps; leads = leads ∙ (beq_iff top root).0 on })
            ]
      ]

  -- The fields of a target that is accepted, and the path under which it is reported.
  pub record Accepted (path : Str) (target : Value) : Type 0 where
    pub fields : Fields
    pub is_fields : target ≡ obj fields
    pub is_path : get (codes "path") fields ≡ some (str path)
    pub opens : Opens path fields

  verify_named-Opens :
      (name : Option Value) (target : Fields) {p : Str}
      → verify_named sha256 root (get_or name null) target ≡ valid p
      → (name ≡ some (str p)) × Opens p target
  unfolding verify_named
  verify_named-Opens none target h = absurd (cc)
  verify_named-Opens (some (str path)) target {p} h =
      let (e, opens) = verify_path-Opens path target h in
      (ap (λ q. some (str q)) (sym e), subst (λ q. Opens q target) (sym e) opens)
  verify_named-Opens (some _) target h = absurd (cc)

  verify_target-Accepted :
      (target : Value) {p : Str} → verify_target sha256 root target ≡ valid p → Accepted p target
  unfolding verify_target
  verify_target-Accepted (obj fields) h =
      let (is_path, opens) = verify_named-Opens (get (codes "path") fields) fields h in
      record { fields = fields; is_fields = refl; is_path = is_path; opens = opens }
  verify_target-Accepted _ h = absurd (cc)

  -- Each target with the path that is reported for it.
  abbrev pub AllAccepted : Items → List Str → Type 0
  AllAccepted nil [] = Unit
  AllAccepted (cons t targets) (p ∷ paths) = Accepted p t × AllAccepted targets paths
  AllAccepted _ _ = ⊥

  pub verify_targets-AllAccepted :
      (targets : Items) (paths : List Str)
      → verify_targets sha256 root targets ≡ valid paths
      → AllAccepted targets paths
  unfolding verify_targets
  verify_targets-AllAccepted nil [] h = tt
  verify_targets-AllAccepted nil (p ∷ paths) h = absurd (cc)
  verify_targets-AllAccepted (cons t targets) paths h =
      let (p, at, rest) = >>=-eq-valid (verify_target sha256 root t) _ h in
      let (ps, ats, done) = >>=-eq-valid (verify_targets sha256 root targets) _ rest in
      let shape : p ∷ ps ≡ paths = ground arith in
      subst (AllAccepted (cons t targets)) shape
        (verify_target-Accepted t at, verify_targets-AllAccepted targets ps ats)

verify_list-valid :
    (sha256 : Str → Str) (root : Str) (targets : Items) {paths : List Str}
    → verify_list sha256 root (arr targets) ≡ valid paths
    → verify_targets sha256 root targets ≡ valid paths
unfolding verify_list
verify_list-valid sha256 root nil h = absurd (cc)
verify_list-valid sha256 root (cons t targets) h = h

-- An accepted proof has had each of its targets checked against its root.
pub verify-targets :
    (sha256 : Str → Str) (proof : Fields) (root : Str) (targets : Items) {paths : List Str}
    → verify_rmp_proof sha256 (obj proof) ≡ valid paths
    → get (codes "root") proof ≡ some (str (codes "sha256:" ++ root))
    → get (codes "targets") proof ≡ some (arr targets)
    → AllAccepted sha256 root targets paths
unfolding verify_rmp_proof verify_fields expected_root strip_prefix
verify-targets sha256 proof root targets {paths} h is_root is_targets =
    elim (Bool-cases (is_text (codes "RMP-1") (field_or_null (codes "schemaVersion") proof))) [
      | inr other ↦ absurd (cc (rw other at h))
      | inl schema ↦
          verify_targets-AllAccepted sha256 root targets paths
            (verify_list-valid sha256 root targets (rw (is_root, is_targets) at (rw schema at h)))
    ]

strip_prefix-append :
    (prefix s : Str) {rest : Str} → strip_prefix prefix s ≡ some rest → s ≡ prefix ++ rest
unfolding strip_prefix
strip_prefix-append [] s h = ground arith
strip_prefix-append (a ∷ prefix) [] h = cc
strip_prefix-append (a ∷ prefix) (b ∷ s) {rest} h = elim (Bool-cases (a == b)) [
  | inr other ↦ absurd (cc (rw other at h))
  | inl same ↦ ap₂ ◌∷◌ (sym ((beq_iff a b).0 same)) (strip_prefix-append prefix s (rw same at h))
]

expected_root-valid :
    (root : Option Value) {hash : Str}
    → expected_root (get_or root (str [])) ≡ valid hash
    → root ≡ some (str (codes "sha256:" ++ hash))
unfolding expected_root
expected_root-valid none h = absurd (unfold strip_prefix in cc h)
expected_root-valid (some (str root)) {hash} h =
    elim (Option-cases (strip_prefix (codes "sha256:") root)) [
      | inl off ↦ absurd (cc)
      | inr (rest, on) ↦
          let same : rest ≡ hash = ground arith in
          ap (λ s. some (str s))
            (strip_prefix-append (codes "sha256:") root on ∙ ap (λ r. codes "sha256:" ++ r) same)
    ]
expected_root-valid (some _) h = absurd (cc)

verify_list-arr :
    (sha256 : Str → Str) (root : Str) (targets : Option Value) {paths : List Str}
    → verify_list sha256 root (get_or targets null) ≡ valid paths
    → (ts : Items) × (targets ≡ some (arr ts))
unfolding verify_list
verify_list-arr sha256 root none h = absurd (cc)
verify_list-arr sha256 root (some (arr ts)) h = (ts, refl)
verify_list-arr sha256 root (some _) h = absurd (cc)

-- An accepted proof has a root, behind the prefix, and a list of targets.
pub record IsProof (proof : Fields) : Type 0 where
  pub root : Str
  pub is_root : get (codes "root") proof ≡ some (str (codes "sha256:" ++ root))
  pub targets : Items
  pub is_targets : get (codes "targets") proof ≡ some (arr targets)

pub verify-IsProof :
    (sha256 : Str → Str) (proof : Fields) {paths : List Str}
    → verify_rmp_proof sha256 (obj proof) ≡ valid paths
    → IsProof proof
unfolding verify_rmp_proof verify_fields
verify-IsProof sha256 proof h =
    elim (Bool-cases (is_text (codes "RMP-1") (field_or_null (codes "schemaVersion") proof))) [
      | inr other ↦ absurd (cc (rw other at h))
      | inl schema ↦
          let (root, at, rest) =
            >>=-eq-valid (expected_root (get_or (get (codes "root") proof) (str []))) _
              (rw schema at h) in
          let (targets, is_targets) =
            verify_list-arr sha256 root (get (codes "targets") proof) rest in
          record {
            root = root;
            is_root = expected_root-valid (get (codes "root") proof) at;
            targets = targets;
            is_targets = is_targets;
          }
    ]
