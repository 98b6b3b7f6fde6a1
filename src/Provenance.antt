-- ===== src/Provenance.antt =====
-- backend/provenance_store.py: the store of provenance events, each with the hash of the one before.
-- `sha256` is the hexadecimal digest, `py_str` is Python's `str`, and the clock's reading in
-- milliseconds is an argument. `canonical_json` is that of Json.
pub mod Chain
pub mod Outcome
use minima_pi_net_os.Prelude.{
  str_eq, nat_eq, ℕ, zero, suc, ◌-◌, Str, codes, Bool, true, false, ◌&&◌, ◌||◌, not, Option, none,
  some, List, [], ◌∷◌, ◌++◌, length, take, drop, any, ltb, leb, Result, ok, raise, type_error,
  value_error, ◌>>=◌, ◌==◌, if◌then◌else◌,
}
use minima_pi_net_os.Prelude.Int.{ℤ, pos, negsuc}
use minima_pi_net_os.Json.{
  Value, null, bool, int, str, obj, Fields, end, field, get, get_or, canonical_json,
}

abbrev pub rmpe_schema_version : Str
rmpe_schema_version = codes "RMPE-2"

abbrev pub max_provenance_events : ℕ
max_provenance_events = 1000

-- An event with its hash. The members that are the same for every event are written by `unsigned`.
pub record Event : Type 0 where
  pub event_type : Str
  pub source : Str
  pub cluster_id : Str
  pub node_id : Str
  pub payload : Fields
  pub metadata : Fields
  pub timestamp : Value
  pub recorded_at : ℕ
  pub previous_hash : Option Str
  pub rmpe_hash : Str
  pub provenance_id : Str

-- `[A-Za-z0-9_.:-]`
abbrev in_class : ℕ → Bool
in_class c =
    leb b'A' c && leb c b'Z'
    || leb b'a' c && leb c b'z'
    || leb b'0' c && leb c b'9'
    || any (λ d. d == c) (codes "_.:-")

unfoldable pub matches_event_type : Str → Bool
matches_event_type s = leb 1 (length s) && leb (length s) 80 && not (any (λ c. not (in_class c)) s)

-- `body.get("eventType") if "eventType" in body else body.get("event")`
abbrev pub named_type : Fields → Option Value
named_type body = elim (get (codes "eventType") body) [
  | none ↦ get (codes "event") body
  | some v ↦ some v
]

unfoldable pub checked_event_type : Option Value → Result Str
checked_event_type (some (str s)) = if matches_event_type s then ok s else raise value_error
checked_event_type _ = raise value_error

unfoldable pub checked_payload : Option Value → Result Fields
checked_payload none = ok end
checked_payload (some null) = ok end
checked_payload (some (obj fs)) = ok fs
checked_payload (some _) = raise type_error

-- A `bool` is an `int` to `isinstance`.
unfoldable pub checked_timestamp : ℕ → Option Value → Value
checked_timestamp now (some (int i)) = int i
checked_timestamp now (some (bool b)) = bool b
checked_timestamp now _ = int (pos now)

abbrev is_reserved : Str → Bool
is_reserved k =
    k == codes "event" || k == codes "eventType" || k == codes "payload" || k == codes "timestamp"

unfoldable pub metadata_of : Fields → Fields
metadata_of end = end
metadata_of (field k v fs) =
    let rest = metadata_of fs in if is_reserved k then rest else field k v rest

-- `_provenance_events[-1]["rmpeHash"] if _provenance_events else None`
unfoldable pub last_hash : List Event → Option Str
last_hash [] = none
last_hash (e ∷ []) = some e.rmpe_hash
last_hash (e ∷ f ∷ es) = last_hash (f ∷ es)

abbrev pub hash_value : Option Str → Value
hash_value none = null
hash_value (some h) = str h

-- `unsigned_event`: what the hash of the event is taken of.
unfoldable pub unsigned : Str → Event → Value
unsigned version e = obj (
    field (codes "schemaVersion") (str rmpe_schema_version) (
      field (codes "type") (str (codes "pinet-provenance-event")) (
        field (codes "eventType") (str e.event_type) (
          field (codes "pinetVersion") (str version) (
            field (codes "source") (str e.source) (
              field (codes "clusterId") (str e.cluster_id) (
                field (codes "nodeId") (str e.node_id) (
                  field (codes "payload") (obj e.payload) (
                    field (codes "metadata") (obj e.metadata) (
                      field (codes "timestamp") e.timestamp (
                        field (codes "recordedAt") (int (pos e.recorded_at))
                          (field (codes "previousHash") (hash_value e.previous_hash) end))))))))))))

-- `_provenance_events[:] = _provenance_events[-MAX_PROVENANCE_EVENTS:]` where there are more.
unfoldable pub trim : List Event → List Event
trim es =
    if ltb max_provenance_events (length es)
    then drop (length es - max_provenance_events) es
    else es

-- `events[-limit:]`: from the end for a positive limit, from the start for a negative one, and all
-- of them for zero.
unfoldable pub get_provenance_events : Option ℤ → List Event → List Event
get_provenance_events none es = es
get_provenance_events (some (pos zero)) es = es
get_provenance_events (some (pos (suc n))) es = drop (length es - suc n) es
get_provenance_events (some (negsuc n)) es = drop (suc n) es

module _ (sha256 : Str → Str) (version : Str) where
  unfoldable pub digest_of : Event → Str
  digest_of e = sha256 (canonical_json (unsigned version e))

  abbrev pub seal : Event → Event
  seal e = record e {
    rmpe_hash = codes "sha256:" ++ digest_of e;
    provenance_id = codes "rmpe2:" ++ take 16 (digest_of e);
  }

module _ (py_str : Value → Str) where
  abbrev pub build_event : ℕ → Str → Fields → Str → Fields → Option Str → Event
  build_event now source body event_type payload previous = record {
    event_type = event_type;
    source = source;
    cluster_id = py_str (get_or (get (codes "clusterId") body) (str (codes "local-cluster")));
    node_id = py_str (get_or (get (codes "nodeId") body) (str (codes "local-node")));
    payload = payload;
    metadata = metadata_of body;
    timestamp = checked_timestamp now (get (codes "timestamp") body);
    recorded_at = now;
    previous_hash = previous;
    rmpe_hash = [];
    provenance_id = [];
  }

module _ (sha256 : Str → Str) (version : Str) (py_str : Value → Str) where
  unfoldable pub checked_event : ℕ → Str → Value → Option Str → Result Event
  checked_event now source (obj body) previous =
      checked_event_type (named_type body) >>= λ event_type.
      checked_payload (get (codes "payload") body) >>= λ payload.
      ok (seal sha256 version (build_event py_str now source body event_type payload previous))
  checked_event now source _ previous = raise type_error

  abbrev stored : Result Event → List Event → Result Event × List Event
  stored (raise e) es = (raise e, es)
  stored (ok event) es = (ok event, trim (es ++ event ∷ []))

  unfoldable pub record_provenance_event : ℕ → Str → Value → List Event → Result Event × List Event
  record_provenance_event now source body es =
      stored (checked_event now source body (last_hash es)) es
