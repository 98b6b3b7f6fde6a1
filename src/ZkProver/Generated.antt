-- ===== src/ZkProver/Generated.antt =====
-- `verify_proof` of backend/zk_prover.py on a proof that `generate_proof` made.
use minima_pi_net_os.Prelude.{
  str_eq, ℕ, ◌≡◌, ◌≢◌, ◌↔◌, refl, Str, true, some, List, ok, arith, beq_iff, ◌==◌, Bool-cases, inl,
  inr,
}
use minima_pi_net_os.Dict.{Dict, get, get-put, get-put_self}
use minima_pi_net_os.ZkProver.{Proof, Proofs, Verdict, generate_proof, verified_at, verify_proof}

verified_at-verified :
    (sha256 : Str → Str) (pid h : Str) (elapsed_ms seconds : ℕ) (p : Proof)
    → ((verified_at sha256 pid h elapsed_ms seconds p).verified ≡ (p.program_hash == h))
      × ((verified_at sha256 pid h elapsed_ms seconds p).program_hash ≡ p.program_hash)
      × ((verified_at sha256 pid h elapsed_ms seconds p).proof_bytes ≡ p.proof_bytes)
unfolding verified_at
verified_at-verified sha256 pid h elapsed_ms seconds p = elim (Bool-cases (p.program_hash == h)) [
  | inl same ↦ rw same (refl, refl, refl)
  | inr other ↦ rw other (refl, refl, refl)
]

module _ (sha256 : Str → Str) (dumps : Str → List Str → Dict Str Str → Str) (pid made source : Str)
    (args : List Str) (inputs : Dict Str Str) (backend : Str) (proofs : Proofs) where
  abbrev kept : Proofs
  kept = (generate_proof sha256 dumps pid made source args inputs backend proofs).1

  abbrev generated : Proof
  generated = (generate_proof sha256 dumps pid made source args inputs backend proofs).0

  -- A proof that was generated and is kept is verified by the hash of its program and by nothing
  -- else, whatever public inputs and proof bytes are handed in: the verdict is valid exactly for
  -- that hash, the kept proof is marked by the verdict with its hash and its bytes as they were, and
  -- every other proof is as before.
  pub verify-generate :
      (elapsed_ms seconds : ℕ) (now h : Str) (given : Dict Str Str) (bytes j : Str)
      → pid ≢ j
      → let (r, after) = verify_proof sha256 elapsed_ms seconds now pid h given bytes kept in
        (v : Verdict) × (r ≡ ok v)
        × ((v.valid ≡ true) ↔ (sha256 source ≡ h))
        × ((p : Proof) × (get pid after ≡ some p)
            × (p.verified ≡ v.valid)
            × (p.program_hash ≡ sha256 source)
            × (p.proof_bytes ≡ generated.proof_bytes))
        × (get j after ≡ get j proofs)
  unfolding generate_proof verify_proof
  verify-generate elapsed_ms seconds now h given bytes j ne =
      let (marked, hash, bytes_kept) =
        verified_at-verified sha256 pid h elapsed_ms seconds generated in
      rw (get-put_self pid generated proofs, verify_proof)
        (
          _,
          refl,
          beq_iff (sha256 source) h,
          (
            _,
            get-put_self pid (verified_at sha256 pid h elapsed_ms seconds generated) kept,
            marked,
            hash,
            bytes_kept,
          ),
          ground (
            arith,
            get-put pid j (verified_at sha256 pid h elapsed_ms seconds generated) kept,
            get-put pid j generated proofs,
            beq_iff pid j,
          ),
        )
