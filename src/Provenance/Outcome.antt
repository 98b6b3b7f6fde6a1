-- ===== src/Provenance/Outcome.antt =====
-- What `record_provenance_event` of backend/provenance_store.py accepts and refuses, and what
-- `get_provenance_events` lists.
use minima_pi_net_os.Prelude.{
  ℕ, suc, ◌-◌, ◌≡◌, refl, Str, codes, true, Option, none, some, List, [], ◌∷◌, ◌++◌, length, take,
  min, ok, raise, Exc, arith, Result-cases, inl, inr, length-drop, take-append-drop,
}
use minima_pi_net_os.Prelude.Int.{pos}
use minima_pi_net_os.Json.{Value, Fields, null, str, obj, end, get}
use minima_pi_net_os.Provenance.{
  Event, last_hash, trim, matches_event_type, named_type, checked_event_type, checked_payload,
  checked_event, record_provenance_event, get_provenance_events,
}

-- The member `payload` and the object that the store takes for it.
pub data IsPayload : Option Value → Fields → Type 0 where
  absent : IsPayload none end
  is_null : IsPayload (some null) end
  given : (fs : Fields) → IsPayload (some (obj fs)) fs

IsPayload-checked : (v : Option Value) (p : Fields) → IsPayload v p → checked_payload v ≡ ok p
unfolding checked_payload
IsPayload-checked _ _ absent = refl
IsPayload-checked _ _ is_null = refl
IsPayload-checked _ _ (given fs) = refl

module _ (sha256 : Str → Str) (version : Str) (py_str : Value → Str) (now : ℕ) (source : Str)
    (es : List Event) where
  -- A body whose event type is a text of 1 to 80 of the allowed characters, and whose payload is
  -- absent, null or an object, is accepted: the event has that type and that payload, names the hash
  -- of the last event, and goes to the end of the store, which then drops its oldest beyond 1000.
  pub record-accepted :
      (body : Fields) (event_type : Str) (payload : Fields)
      → named_type body ≡ some (str event_type)
      → matches_event_type event_type ≡ true
      → IsPayload (get (codes "payload") body) payload
      → (e : Event) × (record_provenance_event sha256 version py_str now source (obj body) es
          ≡ (ok e, trim (es ++ e ∷ [])))
        × (e.event_type ≡ event_type)
        × (e.payload ≡ payload)
        × (e.previous_hash ≡ last_hash es)
  unfolding record_provenance_event checked_event checked_event_type
  record-accepted body event_type payload named matches payload_ok =
      rw (named, checked_event_type, matches, IsPayload-checked _ _ payload_ok)
        (_, refl, refl, refl, refl)

  -- A body that is refused leaves the store as it was.
  pub record-refused :
      (body : Value) {x : Exc}
      → (record_provenance_event sha256 version py_str now source body es).0 ≡ raise x
      → (record_provenance_event sha256 version py_str now source body es).1 ≡ es
  unfolding record_provenance_event
  record-refused body h =
      elim (Result-cases (checked_event sha256 version py_str now source body (last_hash es))) [
        | inl (x, failed) ↦ rw failed refl
        | inr (e, made) ↦ absurd (cc)
      ]

-- A positive limit lists the newest events, as many as it says or all where there are fewer, in the
-- order in which they were recorded.
pub get_provenance_events-newest :
    (n : ℕ) (es : List Event)
    → (take (length es - suc n) es ++ get_provenance_events (some (pos (suc n))) es ≡ es)
      × (length (get_provenance_events (some (pos (suc n))) es) ≡ min (suc n) (length es))
unfolding get_provenance_events
get_provenance_events-newest n es =
    (take-append-drop (length es - suc n) es, ground (arith, length-drop (length es - suc n) es))
