-- ===== src/ZkProver/Sound.antt =====
-- What every operation of backend/zk_prover.py keeps of the proofs.
use minima_pi_net_os.Prelude.{
  str_eq, ℕ, ◌≡◌, refl, Str, codes, true, List, [], ◌∷◌, length, take, ◌==◌, Bool-cases,
  Option-cases, inl, inr,
}
use minima_pi_net_os.Dict.{Dict, get, AllValues, AllValues-put, AllValues-remove, AllValues-get}
use minima_pi_net_os.ZkProver.{
  Proof, Proofs, generate_proof, verified_at, verify_proof, delete_proof,
}

-- The size that a proof states is the size of its bytes, and a verified proof has the identifier of
-- a ledger transaction.
pub record IsSound (p : Proof) : Type 0 where
  pub sized : p.proof_size_bytes ≡ length p.proof_bytes
  pub anchored : p.verified ≡ true → take 2 p.ledger_txid ≡ codes "0x"

pub data Operation : Type 0 where
  generate : Str → Str → Str → List Str → Dict Str Str → Str → Operation
  verify : ℕ → ℕ → Str → Str → Str → Dict Str Str → Str → Operation
  delete : Str → Operation

module _ (sha256 : Str → Str) (dumps : Str → List Str → Dict Str Str → Str) where
  unfoldable pub step : Operation → Proofs → Proofs
  step (generate pid now source args inputs backend) ps =
      (generate_proof sha256 dumps pid now source args inputs backend ps).1
  step (verify elapsed seconds now pid h inputs bytes) ps =
      (verify_proof sha256 elapsed seconds now pid h inputs bytes ps).1
  step (delete pid) ps = (delete_proof pid ps).1

  unfoldable pub run : List Operation → Proofs → Proofs
  run [] ps = ps
  run (op ∷ ops) ps = run ops (step op ps)

  verified_at-IsSound :
      (pid h : Str) (elapsed seconds : ℕ) (p : Proof)
      → IsSound p
      → IsSound (verified_at sha256 pid h elapsed seconds p)
  unfolding verified_at take
  verified_at-IsSound pid h elapsed seconds p s = elim (Bool-cases (p.program_hash == h)) [
    | inl same ↦ rw same (record { sized = s.sized; anchored = λ v. refl })
    | inr other ↦ rw other (record { sized = s.sized; anchored = λ v. absurd (cc) })
  ]

  verify-AllSound :
      (elapsed seconds : ℕ) (now pid h : Str) (inputs : Dict Str Str) (bytes : Str) (ps : Proofs)
      → AllValues IsSound ps
      → AllValues IsSound (verify_proof sha256 elapsed seconds now pid h inputs bytes ps).1
  unfolding verify_proof
  verify-AllSound elapsed seconds now pid h inputs bytes ps s = elim (Option-cases (get pid ps)) [
    | inl gone ↦ rw (gone, verify_proof) s
    | inr (p, at) ↦
        rw (at, verify_proof)
          (AllValues-put IsSound pid (verified_at sha256 pid h elapsed seconds p) ps
            (verified_at-IsSound pid h elapsed seconds p (AllValues-get IsSound pid ps s at)) s)
  ]

  step-AllSound :
      (op : Operation) (ps : Proofs) → AllValues IsSound ps → AllValues IsSound (step op ps)
  unfolding step generate_proof delete_proof
  step-AllSound (generate pid now source args inputs backend) ps s =
      AllValues-put IsSound pid _ ps (record { sized = refl; anchored = λ v. absurd (cc) }) s
  step-AllSound (verify elapsed seconds now pid h inputs bytes) ps s =
      verify-AllSound elapsed seconds now pid h inputs bytes ps s
  step-AllSound (delete pid) ps s = AllValues-remove IsSound pid ps s

  run_from :
      (ops : List Operation) (ps : Proofs) → AllValues IsSound ps → AllValues IsSound (run ops ps)
  unfolding run
  run_from [] ps s = s
  run_from (op ∷ ops) ps s = run_from ops (step op ps) (step-AllSound op ps s)

  -- Whatever is generated, verified and deleted from an empty start, in any order: every kept proof
  -- states the size of its bytes, and one that is marked as verified has a ledger transaction's
  -- identifier, which begins with 0x.
  pub run-AllSound : (ops : List Operation) → AllValues IsSound (run ops [])
  run-AllSound ops = run_from ops [] tt
