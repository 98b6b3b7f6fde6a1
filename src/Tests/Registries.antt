-- ===== src/Tests/Registries.antt =====
-- backend/marketplace.py, backend/enclave_manager.py and backend/zk_prover.py on concrete inputs.
use minima_pi_net_os.Prelude.{
  str_eq, text_eq, nat_eq, ℕ, ◌≡◌, ◌≢◌, ◌↔◌, refl, String, Str, codes, true, some, List, [], ◌∷◌,
  Result, ok, arith, beq_iff,
}
use minima_pi_net_os.Prelude.Int.{pos}
use minima_pi_net_os.Dict.{Dict, get}
use minima_pi_net_os.Marketplace.{Listing, Order, Market}
use minima_pi_net_os.Marketplace.Invariant.{Operation, list, order, complete, review, empty, run}
use minima_pi_net_os.Enclave as Enclaves
use minima_pi_net_os.Enclave.{
  Enclave, Attestation, Status, creating, make_measurement, create_enclave, attest_enclave,
}
use minima_pi_net_os.Enclave.Lifecycle as Lifecycle
use minima_pi_net_os.Enclave.Attested.{AllSpare, attest_enclave-measurement}
use minima_pi_net_os.ZkProver.{Proof, Verdict, generate_proof, verify_proof}
use minima_pi_net_os.ZkProver.Generated.{verify-generate}

abbrev board : Listing
board = record {
  listing_id = "";
  node_id = "node-1";
  name = "Pi 5";
  description = "";
  cpu_cores = 4;
  ram_gb = 8;
  disk_gb = 64;
  gpu_type = "";
  npu_type = "";
  price_per_hour = "0.5";
  token = "MIN";
  location = "";
  status = "";
  rating_avg = record { sum = 0; count = 0 };
  rating_count = 0;
  tags = "arm" ∷ [];
  max_lease_hours = 24;
  created_at = "";
}

abbrev lease : Order
lease = record {
  order_id = "";
  listing_id = "l1";
  buyer_node_id = "node-2";
  seller_node_id = "node-1";
  hours = 2;
  total_price = "";
  token = "MIN";
  status = "";
  escrow_txid = "";
  attestation_ref = "";
  created_at = "";
  completed_at = "";
}

abbrev two_listings : Market
two_listings = record empty {
  listings =
      ("l1", record board { listing_id = "l1"; status = "active" })
      ∷ ("l2", record board { listing_id = "l2"; status = "leased" })
      ∷ [];
}

abbrev trade : List Operation
trade =
    list "l1" "t0" board
    ∷ list "l2" "t1" board
    ∷ order "o1" "t2" lease
    ∷ review "l1" "o1" "node-2" (pos 9) "fast" "t3"
    ∷ complete "o1" "t4"
    ∷ []

abbrev free_of_charge : String → ℕ → Result String
free_of_charge price hours = ok "0.000000"

listing_found :
    get "l1" two_listings.listings ≡ some (record board { listing_id = "l1"; status = "active" })
unfolding get
listing_found = refl

abbrev toy_hash : Str → Str
toy_hash s = s

abbrev sandbox : Enclave
sandbox = record {
  enclave_id = [];
  name = codes "vault";
  tee_type = codes "cca";
  status = creating;
  memory_mb = 1024;
  cpu_count = 2;
  measurement = [];
  runtime = codes "linux";
  image_ref = [];
  node_id = codes "localhost";
  attestation_token = [];
  created_at = [];
}

abbrev uses : List Lifecycle.Operation
uses =
    Lifecycle.create (codes "e2") (codes "t1") (codes "1.5") sandbox
    ∷ Lifecycle.stop (codes "e1")
    ∷ Lifecycle.terminate (codes "e2")
    ∷ []

abbrev no_enclaves : Enclaves.Node
no_enclaves = record { enclaves = []; measurements = [] }

run-IsOrderly_example : Lifecycle.IsOrderly 1 (Lifecycle.run toy_hash 1 uses no_enclaves)
run-IsOrderly_example = Lifecycle.run-IsOrderly toy_hash 1 uses

e2_e1 : codes "e2" ≢ codes "e1"
e2_e1 = ground (arith, beq_iff (codes "e2") (codes "e1"))

uses_spare : AllSpare (codes "e1") uses
uses_spare = (e2_e1, (tt, (e2_e1, tt)))

attest_enclave-measurement_example :
    (a : Attestation) × ((attest_enclave toy_hash (codes "e1") 7 (codes "t9") (
        Lifecycle.run toy_hash 2 uses
          (create_enclave toy_hash 2
            (codes "e1")
            (codes "t0")
            (codes "1.0")
            sandbox
            no_enclaves).1)).0
      ≡ ok a)
    × (a.measurement ≡ make_measurement toy_hash (codes "vault") (codes "cca") 1024 (codes "1.0"))
    × (a.enclave_id ≡ codes "e1")
    × (a.is_attested ≡ true)
attest_enclave-measurement_example =
    attest_enclave-measurement toy_hash 2 (codes "e1") (codes "t0") (codes "1.0") sandbox
      no_enclaves uses 7 (codes "t9") (omega arith) uses_spare

abbrev toy_dumps : Str → List Str → Dict Str Str → Str
toy_dumps source args inputs = source

-- Bytes that were never generated are verified.
verify-generate_example :
    let kept =
      (generate_proof toy_hash toy_dumps
        (codes "p1")
        (codes "t0")
        (codes "fn main")
        []
        []
        (codes "risc0")
        []).1 in
    let generated =
      (generate_proof toy_hash toy_dumps
        (codes "p1")
        (codes "t0")
        (codes "fn main")
        []
        []
        (codes "risc0")
        []).0 in
    let (r, later) =
      verify_proof toy_hash 3 7
        (codes "t1")
        (codes "p1")
        (codes "fn main")
        []
        (codes "forged")
        kept in
    (v : Verdict) × (r ≡ ok v)
    × ((v.valid ≡ true) ↔ (codes "fn main" ≡ codes "fn main"))
    × ((p : Proof) × (get (codes "p1") later ≡ some p)
        × (p.verified ≡ v.valid)
        × (p.program_hash ≡ codes "fn main")
        × (p.proof_bytes ≡ generated.proof_bytes))
    × (get (codes "p2") later ≡ get (codes "p2") [])
verify-generate_example =
    verify-generate toy_hash toy_dumps (codes "p1") (codes "t0") (codes "fn main") [] []
      (codes "risc0") [] 3 7 (codes "t1") (codes "fn main") [] (codes "forged") (codes "p2")
      (ground (arith, beq_iff (codes "p1") (codes "p2")))
