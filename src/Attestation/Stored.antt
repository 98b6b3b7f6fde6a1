-- ===== src/Attestation/Stored.antt =====
-- The records of backend/attestation.py over a sequence of operations, and stored and loaded again.
use minima_pi_net_os.Prelude.{
  str_eq, ◌≡◌, refl, sym, ◌∙◌, Str, Bool, true, false, Option, some, List, [], ◌∷◌, Option-cases,
  inl, inr, if-both, Result,
}
use minima_pi_net_os.Dict.{Dict, get, put}
use minima_pi_net_os.Dict.Distinct.{IsDistinct, IsDistinct-put}
use minima_pi_net_os.Dict.Rebuild.{IsKeyed, IsKeyed-put, IsKeyed-get, load_all-dump}
use minima_pi_net_os.Attestation.{
  AttestationRecord, Records, Directory, create_attestation, verify_attestation, anchor_to_ledger,
  to_state, from_state, marked, result_of,
}

abbrev id_of : AttestationRecord → Str
id_of r = r.attestation_id

abbrev IsTidy : Records → Type 0
IsTidy records = IsKeyed id_of records × IsDistinct records

pub data Operation : Type 0 where
  attest : Dict Str Str → Directory → Directory → Str → Str → Operation
  verify : Str → Dict Str Str → Str → Str → Str → Operation
  anchor : Str → Str → Operation

module _ (enabled : Bool) (sha256 : Str → Str) (pcr_bank : Str) where
  unfoldable pub step : Operation → Records → Records
  step (attest pcrs boot config now node) records =
      (create_attestation enabled sha256 pcr_bank pcrs boot config now node records).1
  step (verify now pcrs boot config id) records =
      (verify_attestation now pcrs boot config id records).1
  step (anchor id txid) records = (anchor_to_ledger id txid records).1

  unfoldable pub run : List Operation → Records → Records
  run [] records = records
  run (op ∷ ops) records = run ops (step op records)

  put-IsTidy :
      (id : Str) (r : AttestationRecord) (records : Records)
      → id ≡ r.attestation_id
      → IsTidy records
      → IsTidy (put id r records)
  put-IsTidy id r records same h =
      (IsKeyed-put id_of id r records same h.0, IsDistinct-put id r records h.1)

  verify-IsTidy :
      (now : Str) (pcrs : Dict Str Str) (boot config id : Str) (records : Records)
      → IsTidy records
      → IsTidy (verify_attestation now pcrs boot config id records).1
  unfolding verify_attestation
  verify-IsTidy now pcrs boot config id records h = elim (Option-cases (get id records)) [
    | inl gone ↦ rw (gone, verify_attestation) h
    | inr (r, at) ↦
        let valid = (result_of now pcrs boot config id r).valid in
        rw (at, verify_attestation)
          (put-IsTidy id (marked valid r) records
            (IsKeyed-get id_of id records h.0 at ∙ sym (kept valid r)) h)
  ]
    where
      kept :
          (valid : Bool) (r : AttestationRecord)
          → (marked valid r).attestation_id ≡ r.attestation_id
      kept true r = refl
      kept false r = refl

  anchor-IsTidy :
      (id txid : Str) (records : Records)
      → IsTidy records
      → IsTidy (anchor_to_ledger id txid records).1
  unfolding anchor_to_ledger
  anchor-IsTidy id txid records h = elim (Option-cases (get id records)) [
    | inl gone ↦ rw (gone, anchor_to_ledger) h
    | inr (r, at) ↦
        rw (at, anchor_to_ledger)
          (put-IsTidy id (record r { ledger_txid = txid }) records
            (IsKeyed-get id_of id records h.0 at) h)
  ]

  step-IsTidy : (op : Operation) (records : Records) → IsTidy records → IsTidy (step op records)
  unfolding step create_attestation
  step-IsTidy (attest pcrs boot config now node) records h =
      if-both (λ (s : Result _ × Records). IsTidy s.1) enabled (put-IsTidy _ _ records refl h) h
  step-IsTidy (verify now pcrs boot config id) records h =
      verify-IsTidy now pcrs boot config id records h
  step-IsTidy (anchor id txid) records h = anchor-IsTidy id txid records h

  run-IsTidy :
      (ops : List Operation) (records : Records) → IsTidy records → IsTidy (run ops records)
  unfolding run
  run-IsTidy [] records h = h
  run-IsTidy (op ∷ ops) records h = run-IsTidy ops (step op records) (step-IsTidy op records h)

  -- However records are made, verified and anchored from an empty start: what is stored of them is
  -- loaded again as it was, with every mark and every transaction, in the records' order.
  pub from_state-to_state_records {ℓ} :
      {Item : Type ℓ} (build : Item → Option AttestationRecord) (dump : AttestationRecord → Item)
      (ops : List Operation)
      → ((r : AttestationRecord) → build (dump r) ≡ some r)
      → from_state build (to_state dump (run ops [])) ≡ run ops []
  unfolding from_state to_state
  from_state-to_state_records build dump ops again =
      let (keyed, distinct) = run-IsTidy ops [] (tt, tt) in
      load_all-dump id_of build dump (run ops []) again keyed distinct
