-- ===== src/Enclave/Attested.antt =====
-- What `attest_enclave` of backend/enclave_manager.py reports of an enclave.
use minima_pi_net_os.Prelude.{
  str_eq, ℕ, ◌≡◌, ◌≢◌, ◌<◌, refl, Str, true, false, some, List, [], ◌∷◌, ok, leb, length, arith,
  Bool-cases, Option-cases, beq_iff, inl, inr,
}
use minima_pi_net_os.Dict.{get, get-put, get-put_self, get-remove}
use minima_pi_net_os.Dict.Change.{change, get-change_keeps}
use minima_pi_net_os.Enclave.{
  Enclave, Node, Attestation, stopped, fresh, attest, make_measurement, create_enclave,
  stop_enclave, terminate_enclave, attest_enclave, attestation_of, record_measurement,
}
use minima_pi_net_os.Enclave.Lifecycle.{
  Operation, create, stop, terminate, measure, attest_at, step, run,
}

-- The operation neither makes an enclave of this identifier nor terminates it.
abbrev pub Spares : Str → Operation → Type 0
Spares eid (create j now clock e) = j ≢ eid
Spares eid (terminate j) = j ≢ eid
Spares eid (stop j) = Unit
Spares eid (measure j pcrs runtime config now) = Unit
Spares eid (attest_at j seconds now) = Unit

abbrev pub AllSpare : Str → List Operation → Type 0
AllSpare eid [] = Unit
AllSpare eid (op ∷ ops) = Spares eid op × AllSpare eid ops

-- The node has this enclave, with this measurement.
abbrev Measured : Str → Str → Node → Type 0
Measured eid measurement n =
    (e : Enclave) × (get eid n.enclaves ≡ some e) × (e.measurement ≡ measurement)

module _ (sha256 : Str → Str) (max_per_node : ℕ) (eid : Str) where
  create-Measured :
      (m j now clock : Str) (e : Enclave) (n : Node)
      → j ≢ eid
      → Measured eid m n
      → Measured eid m (create_enclave sha256 max_per_node j now clock e n).1
  unfolding create_enclave
  create-Measured m j now clock e n ne (x, at, same) =
      elim (Bool-cases (leb max_per_node (length n.enclaves))) [
        | inl full ↦ rw full (x, at, same)
        | inr room ↦ rw room (
          x,
          ground (arith, get-put j eid (fresh sha256 j now clock e) n.enclaves, beq_iff j eid, at),
          same,
        )
      ]

  terminate-Measured :
      (m j : Str) (n : Node) → j ≢ eid → Measured eid m n → Measured eid m (terminate_enclave j n).1
  unfolding terminate_enclave
  terminate-Measured m j n ne (x, at, same) = elim (Option-cases (get j n.enclaves)) [
    | inl gone ↦ rw (gone, terminate_enclave) (x, at, same)
    | inr (e, there) ↦
        rw (there, terminate_enclave)
          (x, ground (arith, get-remove j eid n.enclaves, beq_iff j eid, at), same)
  ]

  step-Measured :
      (m : Str) (op : Operation) (n : Node)
      → Spares eid op
      → Measured eid m n
      → Measured eid m (step sha256 max_per_node op n)
  unfolding step stop_enclave record_measurement attest_enclave
  step-Measured m (create j now clock e) n ne h = create-Measured m j now clock e n ne h
  step-Measured m (terminate j) n ne h = terminate-Measured m j n ne h
  step-Measured m (stop j) n ne (x, at, same) =
      get-change_keeps {P = λ e. e.measurement ≡ m} j eid (λ e. record e { status = stopped })
        n.enclaves at same same
  step-Measured m (measure j pcrs runtime config now) n ne h = h
  step-Measured m (attest_at j seconds now) n ne (x, at, same) =
      get-change_keeps {P = λ e. e.measurement ≡ m} j eid (attest sha256 j seconds) n.enclaves at
        same same

  run-Measured :
      (m : Str) (ops : List Operation) (n : Node)
      → AllSpare eid ops
      → Measured eid m n
      → Measured eid m (run sha256 max_per_node ops n)
  unfolding run
  run-Measured m [] n spare h = h
  run-Measured m (op ∷ ops) n spare h =
      run-Measured m ops (step sha256 max_per_node op n) spare.1 (step-Measured m op n spare.0 h)

  create-Measured_self :
      (now clock : Str) (e : Enclave) (n : Node)
      → length n.enclaves < max_per_node
      → Measured eid
          (make_measurement sha256 e.name e.tee_type e.memory_mb clock)
          (create_enclave sha256 max_per_node eid now clock e n).1
  unfolding create_enclave
  create-Measured_self now clock e n room =
      let free : leb max_per_node (length n.enclaves) ≡ false = ground arith in
      rw free (_, get-put_self eid (fresh sha256 eid now clock e) n.enclaves, refl)

  -- An enclave made where there is room, and whatever happens to the node afterwards but a
  -- termination or a second creation of the same identifier: an attestation of it succeeds and
  -- reports the measurement taken when it was made.
  pub attest_enclave-measurement :
      (now clock : Str) (e : Enclave) (n : Node) (ops : List Operation) (seconds : ℕ) (later : Str)
      → length n.enclaves < max_per_node
      → AllSpare eid ops
      → (a : Attestation) × ((attest_enclave sha256 eid seconds later (
            run sha256 max_per_node ops (create_enclave sha256 max_per_node eid now clock e n).1)).0
          ≡ ok a)
        × (a.measurement ≡ make_measurement sha256 e.name e.tee_type e.memory_mb clock)
        × (a.enclave_id ≡ eid)
        × (a.is_attested ≡ true)
  unfolding attest_enclave attestation_of change
  attest_enclave-measurement now clock e n ops seconds later room spare =
      let (x, at, same) =
        run-Measured (make_measurement sha256 e.name e.tee_type e.memory_mb clock) ops
          (create_enclave sha256 max_per_node eid now clock e n).1 spare
          (create-Measured_self now clock e n room) in
      rw (at, change) (_, refl, same, refl, refl)
