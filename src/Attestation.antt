-- ===== src/Attestation.antt =====
-- backend/attestation.py and its classes of backend/models.py: attestation records, their
-- verification against expected values, and the hashes of directories. The PCR values, the
-- directories' contents and the clock are arguments; `sha256` is the hexadecimal digest.
pub mod Verify
pub mod Shifted
pub mod Stored
use minima_pi_net_os.Prelude.{
  str_eq, ℕ, Str, codes, Bool, true, false, not, ◌&&◌, Option, none, some, List, [], ◌∷◌, ◌++◌, map,
  take, Result, ok, raise, runtime_error, key_error, ◌==◌, if◌then◌else◌,
}
use minima_pi_net_os.Dict.{Dict, get, put, values}
use minima_pi_net_os.Dict.Change.{change}
use minima_pi_net_os.Dict.Rebuild.{load_all}

pub record AttestationRecord : Type 0 where
  pub attestation_id : Str
  pub node_id : Str
  pub pcr_bank : Str
  pub pcr_values : Dict Str Str
  pub boot_hash : Str
  pub config_hash : Str
  pub timestamp : Str
  pub verified : Bool
  pub ledger_txid : Str

pub record VerifyResult : Type 0 where
  pub attestation_id : Str
  pub valid : Bool
  pub pcr_mismatch : List Str
  pub boot_hash_mismatch : Bool
  pub config_hash_mismatch : Bool
  pub timestamp : Str

-- `AttestationManager._records`
abbrev pub Records : Type 0
Records = Dict Str AttestationRecord

-- A directory: not there, not to be read, or its files with their paths below it and their bytes, in
-- the order that `sorted(path.rglob("*"))` gives.
pub data Directory : Type 0 where
  missing : Directory
  unreadable : Directory
  files : List (Str × Str) → Directory

-- What the hash is updated with, one after the other.
unfoldable pub hashed_text : List (Str × Str) → Str
hashed_text [] = []
hashed_text ((rel, bytes) ∷ fs) = rel ++ (bytes ++ hashed_text fs)

unfoldable pub hash_directory : (Str → Str) → Directory → Str
hash_directory sha256 missing = []
hash_directory sha256 unreadable = []
hash_directory sha256 (files fs) = sha256 (hashed_text fs)

unfoldable pub attestation_id_of : (Str → Str) → Str → Str → Str → Str → Str
attestation_id_of sha256 node_id timestamp boot_hash config_hash = take 16 (
    sha256 (
      node_id
      ++ (codes ":" ++ (timestamp ++ (codes ":" ++ (boot_hash ++ (codes ":" ++ config_hash)))))))

unfoldable pub create_attestation :
    Bool
    → (Str → Str)
    → Str
    → Dict Str Str
    → Directory
    → Directory
    → Str
    → Str
    → Records
    → Result AttestationRecord × Records
create_attestation attestation_enabled sha256 pcr_bank pcrs boot config timestamp node_id records =
    if attestation_enabled
    then (let boot_hash = hash_directory sha256 boot in
        let config_hash = hash_directory sha256 config in
        let id = attestation_id_of sha256 node_id timestamp boot_hash config_hash in
        let r : AttestationRecord = record {
          attestation_id = id;
          node_id = node_id;
          pcr_bank = pcr_bank;
          pcr_values = pcrs;
          boot_hash = boot_hash;
          config_hash = config_hash;
          timestamp = timestamp;
          verified = false;
          ledger_txid = [];
        } in
        (ok r, put id r records))
    else (raise runtime_error, records)

-- `record.pcr_values.get(pcr_idx, "")`
abbrev pub pcr_value : Str → Dict Str Str → Str
pcr_value idx pcrs = elim (get idx pcrs) [ none ↦ [] | some v ↦ v ]

unfoldable pub mismatches : Dict Str Str → Dict Str Str → List Str
mismatches [] actual = []
mismatches ((idx, expected) ∷ more) actual =
    let rest = mismatches more actual in
    if pcr_value idx actual == expected then rest else idx ∷ rest

-- `expected and actual != expected`
abbrev pub differs : Str → Str → Bool
differs [] actual = false
differs (c ∷ s) actual = not (actual == c ∷ s)

abbrev pub is_empty : List Str → Bool
is_empty [] = true
is_empty (x ∷ xs) = false

unfoldable pub result_of : Str → Dict Str Str → Str → Str → Str → AttestationRecord → VerifyResult
result_of now pcrs boot config id r =
    let wrong = mismatches pcrs r.pcr_values in
    let boot_wrong = differs boot r.boot_hash in
    let config_wrong = differs config r.config_hash in
    record {
      attestation_id = id;
      valid = is_empty wrong && (not boot_wrong && not config_wrong);
      pcr_mismatch = wrong;
      boot_hash_mismatch = boot_wrong;
      config_hash_mismatch = config_wrong;
      timestamp = now;
    }

abbrev pub marked : Bool → AttestationRecord → AttestationRecord
marked true r = record r { verified = true }
marked false r = r

unfoldable pub verify_attestation :
    Str → Dict Str Str → Str → Str → Str → Records → Result VerifyResult × Records
verify_attestation now pcrs boot config id records = elim (get id records) [
  | none ↦ (raise key_error, records)
  | some r ↦
      let v = result_of now pcrs boot config id r in (ok v, put id (marked v.valid r) records)
]

unfoldable pub list_attestations : Records → List AttestationRecord
list_attestations records = values records

unfoldable pub get_attestation : Str → Records → Option AttestationRecord
get_attestation id records = get id records

unfoldable pub anchor_to_ledger : Str → Str → Records → Bool × Records
anchor_to_ledger id txid records = elim (get id records) [
  | none ↦ (false, records)
  | some r ↦ (true, put id (record r { ledger_txid = txid }) records)
]

unfoldable pub to_state {ℓ} : {Item : Type ℓ} → (AttestationRecord → Item) → Records → List Item
to_state dump records = map dump (values records)

-- `build` is `AttestationRecord(**item)`.
unfoldable pub from_state {ℓ} :
    {Item : Type ℓ} → (Item → Option AttestationRecord) → List Item → Records
from_state build items = load_all (λ r. r.attestation_id) build items []
