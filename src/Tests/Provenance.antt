-- ===== src/Tests/Provenance.antt =====
-- backend/provenance_store.py on concrete bodies, with a toy hash in place of SHA-256.
use minima_pi_net_os.Prelude.{
  str_eq, nat_eq, str_beq, ℕ, ◌≡◌, refl, Str, codes, true, none, some, List, [], ◌∷◌, any, raise,
  value_error,
}
use minima_pi_net_os.Prelude.Int.{pos}
use minima_pi_net_os.Json.{Value, Fields, int, str, obj, end, field, get}
use minima_pi_net_os.Provenance.{
  Event, named_type, matches_event_type, checked_event, checked_event_type, record_provenance_event,
}
use minima_pi_net_os.Provenance.Chain.{IsChain, record_all, record_all-IsChain}
use minima_pi_net_os.Provenance.Outcome.{IsPayload, absent}

abbrev toy_hash : Str → Str
toy_hash s = codes "#"

abbrev toy_str : Value → Str
toy_str v = codes "?"

abbrev version : Str
version = codes "3.0.0"

abbrev started : Fields
started = field (codes "eventType") (str (codes "node.start")) end

abbrev nameless : Value
nameless = obj (field (codes "eventType") (str []) end)

abbrev arrivals : List (ℕ × Str × Value)
arrivals =
    (1, codes "api", obj started) ∷ (2, codes "api", nameless) ∷ (3, codes "cli", obj started) ∷ []

record_all-IsChain_example :
    IsChain toy_hash version (record_all toy_hash version toy_str arrivals [])
record_all-IsChain_example = record_all-IsChain toy_hash version toy_str arrivals

abbrev first : Event
first = record {
  event_type = codes "node.start";
  source = codes "api";
  cluster_id = [];
  node_id = [];
  payload = end;
  metadata = end;
  timestamp = int (pos 1);
  recorded_at = 1;
  previous_hash = none;
  rmpe_hash = codes "sha256:#";
  provenance_id = codes "rmpe2:#";
}

started_type : named_type started ≡ some (str (codes "node.start"))
unfolding get str_beq
started_type = refl

type_matches : matches_event_type (codes "node.start") ≡ true
unfolding matches_event_type any
type_matches = refl

no_payload : IsPayload (get (codes "payload") started) end
unfolding get str_beq
no_payload = absent

nameless_refused :
    (record_provenance_event toy_hash version toy_str 3 (codes "cli") nameless (first ∷ [])).0
    ≡ raise value_error
unfolding record_provenance_event checked_event checked_event_type matches_event_type get str_beq
nameless_refused = refl
