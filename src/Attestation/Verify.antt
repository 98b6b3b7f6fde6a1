-- ===== src/Attestation/Verify.antt =====
-- What `verify_attestation` of backend/attestation.py finds.
use minima_pi_net_os.Prelude.{
  str_eq, ◌≡◌, ◌≢◌, ◌↔◌, refl, Str, Bool, true, false, not, ◌&&◌, ◌||◌, some, [], ◌∷◌, ok, arith,
  beq_iff, ◌==◌, Bool-cases, inl, inr,
}
use minima_pi_net_os.Dict.{Dict, get, get-put, get-put_self}
use minima_pi_net_os.Attestation.{
  AttestationRecord, VerifyResult, Records, pcr_value, mismatches, differs, is_empty, result_of,
  marked, verify_attestation,
}

-- Every expected PCR value is the record's.
abbrev pub AllMatch : Dict Str Str → Dict Str Str → Type 0
AllMatch [] actual = Unit
AllMatch ((idx, expected) ∷ more) actual = (pcr_value idx actual ≡ expected) × AllMatch more actual

-- An expected hash that is given is the record's.
abbrev pub Agrees : Str → Str → Type 0
Agrees [] actual = Unit
Agrees (c ∷ s) actual = actual ≡ c ∷ s

mismatches_iff :
    (expected actual : Dict Str Str)
    → (is_empty (mismatches expected actual) ≡ true) ↔ AllMatch expected actual
unfolding mismatches
mismatches_iff [] actual = ((λ h. tt), λ h. refl)
mismatches_iff ((idx, v) ∷ more) actual = elim (Bool-cases (pcr_value idx actual == v)) [
  | inl same ↦ rw same (
    (λ h. ((beq_iff (pcr_value idx actual) v).0 same, (mismatches_iff more actual).0 h)),
    λ h. (mismatches_iff more actual).1 h.1,
  )
  | inr other ↦
      rw other
        ((λ h. absurd (cc)), λ h. absurd (ground (arith, beq_iff (pcr_value idx actual) v, h.0)))
]

differs_iff : (expected actual : Str) → (differs expected actual ≡ false) ↔ Agrees expected actual
differs_iff [] actual = ((λ h. tt), λ h. refl)
differs_iff (c ∷ s) actual = ground (arith, beq_iff actual (c ∷ s))

and_iff :
    (a b c : Bool) → ((a && (not b && not c)) ≡ true) ↔ ((a ≡ true) × (b ≡ false) × (c ≡ false))
and_iff a b c = ground arith

-- The record has every expected PCR value, and the expected hashes where they are given.
abbrev pub Meets : Dict Str Str → Str → Str → AttestationRecord → Type 0
Meets pcrs boot config r =
    AllMatch pcrs r.pcr_values × Agrees boot r.boot_hash × Agrees config r.config_hash

result_of-valid :
    (now : Str) (pcrs : Dict Str Str) (boot config id : Str) (r : AttestationRecord)
    → ((result_of now pcrs boot config id r).valid ≡ true) ↔ Meets pcrs boot config r
unfolding result_of
result_of-valid now pcrs boot config id r =
    let both =
      and_iff (is_empty (mismatches pcrs r.pcr_values)) (differs boot r.boot_hash)
        (differs config r.config_hash) in
    let m = mismatches_iff pcrs r.pcr_values in
    let b = differs_iff boot r.boot_hash in
    let c = differs_iff config r.config_hash in
    (
      λ h. let parts = both.0 h in (m.0 parts.0, b.0 parts.1, c.0 parts.2),
      λ h. both.1 (m.1 h.0, b.1 h.1, c.1 h.2),
    )

marked-verified :
    (valid : Bool) (r : AttestationRecord)
    → ((marked valid r).verified ≡ (valid || r.verified))
      × ((marked valid r).pcr_values ≡ r.pcr_values)
marked-verified true r = (refl, refl)
marked-verified false r = (refl, refl)

-- A record that is kept is verified: the verdict is valid exactly where the record has every expected
-- PCR value and the expected hashes where they are given. A valid verdict marks the record as
-- verified, one that is not valid leaves its mark as it was, and no other record changes.
pub verify_attestation-valid :
    (now : Str) (pcrs : Dict Str Str) (boot config id j : Str) (records : Records)
    (r : AttestationRecord)
    → get id records ≡ some r
    → id ≢ j
    → let (verdict, after) = verify_attestation now pcrs boot config id records in
      (v : VerifyResult) × (verdict ≡ ok v)
      × ((v.valid ≡ true) ↔ Meets pcrs boot config r)
      × ((s : AttestationRecord) × (get id after ≡ some s) × (s.verified ≡ (v.valid || r.verified)))
      × (get j after ≡ get j records)
unfolding verify_attestation
verify_attestation-valid now pcrs boot config id j records r at ne =
    let v = result_of now pcrs boot config id r in
    rw (at, verify_attestation)
      (
        v,
        refl,
        result_of-valid now pcrs boot config id r,
        (
          marked v.valid r,
          get-put_self id (marked v.valid r) records,
          (marked-verified v.valid r).0,
        ),
        ground (arith, get-put id j (marked v.valid r) records, beq_iff id j),
      )
