-- ===== src/ZkProver.antt =====
-- backend/zk_prover.py: the proofs that the node keeps. `sha256` is the hexadecimal digest; the
-- identifiers that `_generate_proof_id` makes and the clock's readings are arguments.
pub mod Sound
pub mod Generated
use minima_pi_net_os.Prelude.{
  str_eq, ℕ, Str, codes, Bool, true, false, Option, none, some, List, [], ◌∷◌, ◌++◌, length, take,
  Result, ok, raise, key_error, ◌==◌, if◌then◌else◌,
}
use minima_pi_net_os.Json.Number.{decimal}
use minima_pi_net_os.Dict.{Dict, get, put, remove, has, values}

pub record Proof : Type 0 where
  pub proof_id : Str
  pub program_hash : Str
  pub public_inputs : Dict Str Str
  pub proof_bytes : Str
  pub verified : Bool
  pub verification_time_ms : ℕ
  pub prover_backend : Str
  pub proof_size_bytes : ℕ
  pub ledger_txid : Str
  pub created_at : Str

-- What `verify_proof` answers.
pub record Verdict : Type 0 where
  pub proof_id : Str
  pub valid : Bool
  pub program_hash_match : Bool
  pub verification_time_ms : ℕ
  pub timestamp : Str

-- `PROOFS`
abbrev pub Proofs : Type 0
Proofs = Dict Str Proof

-- `s * 4`
abbrev pub four_times : Str → Str
four_times s = s ++ (s ++ (s ++ s))

-- `dumps` is `json.dumps(…, sort_keys=True)` of the source, the arguments and the public inputs.
module _ (sha256 : Str → Str) (dumps : Str → List Str → Dict Str Str → Str) where
  abbrev pub compute_program_hash : Str → Str
  compute_program_hash source = sha256 source

  unfoldable pub generate_proof :
      Str → Str → Str → List Str → Dict Str Str → Str → Proofs → Proof × Proofs
  generate_proof pid now program_source program_args public_inputs prover_backend proofs =
      let proof_bytes = four_times (sha256 (dumps program_source program_args public_inputs)) in
      let proof : Proof = record {
        proof_id = pid;
        program_hash = compute_program_hash program_source;
        public_inputs = public_inputs;
        proof_bytes = proof_bytes;
        verified = false;
        verification_time_ms = 0;
        prover_backend = prover_backend;
        proof_size_bytes = length proof_bytes;
        ledger_txid = [];
        created_at = now;
      } in
      (proof, put pid proof proofs)

unfoldable pub get_proof : Str → Proofs → Option Proof
get_proof proof_id proofs = get proof_id proofs

unfoldable pub list_proofs : Proofs → List Proof
list_proofs proofs = values proofs

module _ (sha256 : Str → Str) where
  abbrev pub ledger_txid_of : Str → Str → ℕ → Str
  ledger_txid_of proof_id program_hash seconds =
      codes "0x"
      ++ take 64
          (sha256 (proof_id ++ (codes ":" ++ (program_hash ++ (codes ":" ++ decimal seconds)))))

  -- The record of a proof after its verification.
  unfoldable pub verified_at : Str → Str → ℕ → ℕ → Proof → Proof
  verified_at proof_id program_hash elapsed_ms seconds p =
      if p.program_hash == program_hash
      then record p {
        verified = true;
        verification_time_ms = elapsed_ms;
        ledger_txid = ledger_txid_of proof_id program_hash seconds;
      }
      else record p { verified = false; verification_time_ms = elapsed_ms }

  -- The readings of the clock are in milliseconds for the elapsed time, in seconds for the ledger's
  -- transaction, and printed for the answer.
  unfoldable pub verify_proof :
      ℕ → ℕ → Str → Str → Str → Dict Str Str → Str → Proofs → Result Verdict × Proofs
  verify_proof elapsed_ms seconds now proof_id program_hash public_inputs proof_bytes proofs =
      elim (get proof_id proofs) [
        | none ↦ (raise key_error, proofs)
        | some p ↦ (
          ok (record {
            proof_id = proof_id;
            valid = p.program_hash == program_hash;
            program_hash_match = p.program_hash == program_hash;
            verification_time_ms = elapsed_ms;
            timestamp = now;
          }),
          put proof_id (verified_at proof_id program_hash elapsed_ms seconds p) proofs,
        )
      ]

-- `PROOFS.pop(proof_id, None) is not None`
unfoldable pub delete_proof : Str → Proofs → Bool × Proofs
delete_proof proof_id proofs = (has proof_id proofs, remove proof_id proofs)
