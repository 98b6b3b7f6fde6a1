-- ===== src/Enclave/Lifecycle.antt =====
-- The operations of backend/enclave_manager.py in sequence, and what they keep.
use minima_pi_net_os.Prelude.{
  str_eq, ℕ, ◌≤◌, Str, List, [], ◌∷◌, leb, length, arith, Bool-cases, Option-cases, inl, inr,
}
use minima_pi_net_os.Dict.{
  get, AllValues, AllValues-put, AllValues-remove, length-put, length-remove-le,
}
use minima_pi_net_os.Dict.Change.{length-change, AllValues-change}
use minima_pi_net_os.Enclave.{
  Status, Enclave, Node, running, stopped, attested, fresh, attest, create_enclave, stop_enclave,
  terminate_enclave, attest_enclave, record_measurement,
}

-- The statuses of a kept enclave: one that is being created or is terminated is not kept.
pub data IsKept : Status → Type 0 where
  is_running : IsKept running
  is_stopped : IsKept stopped
  is_attested : IsKept attested

pub record IsOrderly (max_per_node : ℕ) (n : Node) : Type 0 where
  pub bounded : length n.enclaves ≤ max_per_node
  pub kept : AllValues (λ e. IsKept e.status) n.enclaves

pub data Operation : Type 0 where
  create : Str → Str → Str → Enclave → Operation
  stop : Str → Operation
  terminate : Str → Operation
  measure : Str → Str → Str → Str → Str → Operation
  attest_at : Str → ℕ → Str → Operation

module _ (sha256 : Str → Str) (max_per_node : ℕ) where
  unfoldable pub step : Operation → Node → Node
  step (create eid now clock e) n = (create_enclave sha256 max_per_node eid now clock e n).1
  step (stop eid) n = (stop_enclave eid n).1
  step (terminate eid) n = (terminate_enclave eid n).1
  step (measure eid pcrs runtime config now) n =
      (record_measurement sha256 eid pcrs runtime config now n).1
  step (attest_at eid seconds now) n = (attest_enclave sha256 eid seconds now n).1

  unfoldable pub run : List Operation → Node → Node
  run [] n = n
  run (op ∷ ops) n = run ops (step op n)

  create-IsOrderly :
      (eid now clock : Str) (e : Enclave) (n : Node)
      → IsOrderly max_per_node n
      → IsOrderly max_per_node (create_enclave sha256 max_per_node eid now clock e n).1
  unfolding create_enclave
  create-IsOrderly eid now clock e n h = elim (Bool-cases (leb max_per_node (length n.enclaves))) [
    | inl full ↦ rw full h
    | inr room ↦ rw room (record {
      bounded = ground (arith, length-put eid (fresh sha256 eid now clock e) n.enclaves, h.bounded);
      kept =
          AllValues-put (λ x. IsKept x.status) eid (fresh sha256 eid now clock e) n.enclaves
            is_running h.kept;
    })
  ]

  terminate-IsOrderly :
      (eid : Str) (n : Node)
      → IsOrderly max_per_node n
      → IsOrderly max_per_node (terminate_enclave eid n).1
  unfolding terminate_enclave
  terminate-IsOrderly eid n h = elim (Option-cases (get eid n.enclaves)) [
    | inl gone ↦ rw (gone, terminate_enclave) h
    | inr (e, at) ↦
        rw (at, terminate_enclave)
          (record {
            bounded = omega (arith, length-remove-le eid n.enclaves, h.bounded);
            kept = AllValues-remove (λ x. IsKept x.status) eid n.enclaves h.kept;
          })
  ]

  step-IsOrderly :
      (op : Operation) (n : Node) → IsOrderly max_per_node n → IsOrderly max_per_node (step op n)
  unfolding step stop_enclave record_measurement attest_enclave
  step-IsOrderly (create eid now clock e) n h = create-IsOrderly eid now clock e n h
  step-IsOrderly (stop eid) n h = record {
    bounded = rw length-change h.bounded;
    kept =
        AllValues-change (λ x. IsKept x.status) eid (λ e. record e { status = stopped }) n.enclaves
          (λ e k. is_stopped) h.kept;
  }
  step-IsOrderly (terminate eid) n h = terminate-IsOrderly eid n h
  step-IsOrderly (measure eid pcrs runtime config now) n h = record {
    bounded = h.bounded;
    kept = h.kept;
  }
  step-IsOrderly (attest_at eid seconds now) n h = record {
    bounded = rw length-change h.bounded;
    kept =
        AllValues-change (λ x. IsKept x.status) eid (attest sha256 eid seconds) n.enclaves
          (λ e k. is_attested) h.kept;
  }

  run_from :
      (ops : List Operation) (n : Node)
      → IsOrderly max_per_node n
      → IsOrderly max_per_node (run ops n)
  unfolding run
  run_from [] n h = h
  run_from (op ∷ ops) n h = run_from ops (step op n) (step-IsOrderly op n h)

  -- However the manager is used from its empty start, it never keeps more enclaves than the limit,
  -- and every enclave that it keeps is running, stopped or attested.
  pub run-IsOrderly :
      (ops : List Operation)
      → IsOrderly max_per_node (run ops (record { enclaves = []; measurements = [] }))
  run-IsOrderly ops = run_from ops _ (record { bounded = omega arith; kept = tt })
