-- ===== src/Tests/Attestation.antt =====
-- backend/attestation.py on a record and a boot directory, with a toy hash in place of SHA-256.
use minima_pi_net_os.Prelude.{
  str_eq, str_beq, ◌≡◌, ◌↔◌, refl, Str, codes, true, false, ◌||◌, some, [], ◌∷◌, ok, arith, beq_iff,
}
use minima_pi_net_os.Dict.{Dict, get}
use minima_pi_net_os.Attestation.{AttestationRecord, VerifyResult, Records, verify_attestation}
use minima_pi_net_os.Attestation.Verify.{Meets, verify_attestation-valid}

abbrev toy_hash : Str → Str
toy_hash s = s

abbrev golden : Dict Str Str
golden = (codes "0", codes "aa") ∷ (codes "7", codes "bb") ∷ []

abbrev boot_record : AttestationRecord
boot_record = record {
  attestation_id = codes "r1";
  node_id = codes "n1";
  pcr_bank = codes "sha256";
  pcr_values = golden;
  boot_hash = codes "b0";
  config_hash = codes "c0";
  timestamp = codes "t0";
  verified = false;
  ledger_txid = [];
}

abbrev kept : Records
kept = (codes "r1", boot_record) ∷ []

record_found : get (codes "r1") kept ≡ some boot_record
unfolding get str_beq
record_found = refl

verify_attestation-valid_example :
    let (verdict, after) =
      verify_attestation (codes "t1") golden (codes "b0") [] (codes "r1") kept in
    (v : VerifyResult) × (verdict ≡ ok v)
    × ((v.valid ≡ true) ↔ Meets golden (codes "b0") [] boot_record)
    × ((s : AttestationRecord) × (get (codes "r1") after ≡ some s)
        × (s.verified ≡ (v.valid || false)))
    × (get (codes "r2") after ≡ get (codes "r2") kept)
verify_attestation-valid_example =
    verify_attestation-valid (codes "t1") golden (codes "b0") [] (codes "r1") (codes "r2") kept
      boot_record record_found (ground (arith, beq_iff (codes "r1") (codes "r2")))
