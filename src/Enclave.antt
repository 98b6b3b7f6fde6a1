-- ===== src/Enclave.antt =====
-- backend/enclave_manager.py: the enclaves of a node and their measurements. `sha256` is the
-- hexadecimal digest, `max_per_node` the configured limit; the identifiers that
-- `_generate_enclave_id` makes and the clock's readings are arguments.
pub mod Lifecycle
pub mod Attested
use minima_pi_net_os.Prelude.{
  str_eq, ℕ, zero, suc, Str, codes, Bool, true, false, Option, none, some, List, [], ◌∷◌, ◌++◌,
  length, keep, take, leb, Result, ok, raise, runtime_error, key_error, ◌==◌, if◌then◌else◌,
}
use minima_pi_net_os.Json.Number.{decimal}
use minima_pi_net_os.Dict.{Dict, get, put, remove, values}
use minima_pi_net_os.Dict.Change.{change}

pub data Status : Type 0 where
  creating running stopped terminated attested : Status

pub record Enclave : Type 0 where
  pub enclave_id : Str
  pub name : Str
  pub tee_type : Str
  pub status : Status
  pub memory_mb : ℕ
  pub cpu_count : ℕ
  pub measurement : Str
  pub runtime : Str
  pub image_ref : Str
  pub node_id : Str
  pub attestation_token : Str
  pub created_at : Str

pub record Measurement : Type 0 where
  pub enclave_id : Str
  pub pcr_values : Str
  pub runtime_hash : Str
  pub config_hash : Str
  pub signing_key_fingerprint : Str
  pub timestamp : Str

-- What `attest_enclave` answers.
pub record Attestation : Type 0 where
  pub enclave_id : Str
  pub is_attested : Bool
  pub measurement : Str
  pub verification_result : Str
  pub ledger_txid : Str
  pub timestamp : Str

-- `ENCLAVES` and `_ENCLAVE_MEASUREMENTS`
pub record Node : Type 0 where
  pub enclaves : Dict Str Enclave
  pub measurements : Dict Str Measurement

module _ (sha256 : Str → Str) where
  -- `clock` is the text of `time.time()`.
  unfoldable pub make_measurement : Str → Str → ℕ → Str → Str
  unfolding decimal
  make_measurement name tee_type memory_mb clock = sha256 (
      name
      ++ (codes ":" ++ (tee_type ++ (codes ":" ++ (decimal memory_mb ++ (codes ":" ++ clock))))))

  -- The members that the caller does not choose are overwritten.
  abbrev pub fresh : Str → Str → Str → Enclave → Enclave
  fresh eid now clock e = record e {
    enclave_id = eid;
    status = running;
    measurement = make_measurement e.name e.tee_type e.memory_mb clock;
    attestation_token = [];
    created_at = now;
  }

  unfoldable pub create_enclave : ℕ → Str → Str → Str → Enclave → Node → Result Enclave × Node
  create_enclave max_per_node eid now clock e n =
      if leb max_per_node (length n.enclaves) then (raise runtime_error, n) else (
        ok (fresh eid now clock e),
        record n { enclaves = put eid (fresh eid now clock e) n.enclaves },
      )

  -- `seconds` is `int(time.time())`.
  unfoldable pub token_of : Str → Str → ℕ → Str
  unfolding decimal
  token_of enclave_id measurement seconds =
      sha256 (enclave_id ++ (codes ":" ++ (measurement ++ (codes ":" ++ decimal seconds))))

  abbrev pub attest : Str → ℕ → Enclave → Enclave
  attest enclave_id seconds e = record e {
    attestation_token = token_of enclave_id e.measurement seconds;
    status = attested;
  }

  unfoldable pub attestation_of : Str → Str → Result Enclave → Result Attestation
  unfolding take
  attestation_of enclave_id now (raise e) = raise e
  attestation_of enclave_id now (ok e) = ok (record {
    enclave_id = enclave_id;
    is_attested = true;
    measurement = e.measurement;
    verification_result = codes "pass";
    ledger_txid = codes "0x" ++ take 64 (sha256 e.attestation_token);
    timestamp = now;
  })

  unfoldable pub attest_enclave : Str → ℕ → Str → Node → Result Attestation × Node
  attest_enclave enclave_id seconds now n =
      let (r, enclaves) = change enclave_id (attest enclave_id seconds) n.enclaves in
      (attestation_of enclave_id now r, record n { enclaves = enclaves })

  -- `pcr_values` is the text that `json.dumps(pcr_values, sort_keys=True)` gives.
  unfoldable pub record_measurement : Str → Str → Str → Str → Str → Node → Measurement × Node
  unfolding take
  record_measurement enclave_id pcr_values runtime_hash config_hash now n =
      let m : Measurement = record {
        enclave_id = enclave_id;
        pcr_values = pcr_values;
        runtime_hash = runtime_hash;
        config_hash = config_hash;
        signing_key_fingerprint = take 16 (sha256 pcr_values);
        timestamp = now;
      } in
      (m, record n { measurements = put enclave_id m n.measurements })

unfoldable pub get_enclave : Str → Node → Option Enclave
get_enclave enclave_id n = get enclave_id n.enclaves

abbrev pub is_given : Str → Bool
is_given [] = false
is_given (c ∷ s) = true

unfoldable pub list_enclaves : Str → Node → List Enclave
list_enclaves node_id n =
    if is_given node_id
    then keep (λ e. e.node_id == node_id) (values n.enclaves)
    else values n.enclaves

unfoldable pub stop_enclave : Str → Node → Result Enclave × Node
stop_enclave enclave_id n =
    let (r, enclaves) = change enclave_id (λ e. record e { status = stopped }) n.enclaves in
    (r, record n { enclaves = enclaves })

unfoldable pub terminate_enclave : Str → Node → Result Enclave × Node
terminate_enclave enclave_id n = elim (get enclave_id n.enclaves) [
  | none ↦ (raise key_error, n)
  | some e ↦
      (ok (record e { status = terminated }), record n { enclaves = remove enclave_id n.enclaves })
]

unfoldable pub get_measurement : Str → Node → Option Measurement
get_measurement enclave_id n = get enclave_id n.measurements
