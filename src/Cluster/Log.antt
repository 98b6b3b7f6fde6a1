-- ===== src/Cluster/Log.antt =====
-- The log of backend/routes/cluster.py and the store of provenance events behind it.
use minima_pi_net_os.Prelude.{
  str_eq, str_beq, ◌≡◌, refl, Str, codes, true, false, some, List, [], ◌∷◌, ◌++◌, any, ok,
}
use minima_pi_net_os.Json.{Value, str, obj, Fields, get, is_falsy}
use minima_pi_net_os.Provenance.{Event, last_hash, trim, matches_event_type, named_type}
use minima_pi_net_os.Provenance.Chain.{IsChain, IsSealed}
use minima_pi_net_os.Provenance.Outcome.{given, record-accepted}
use minima_pi_net_os.Cluster.Requests.{recorded, ClusterEvent, State, Host, member}
use minima_pi_net_os.Cluster.Handlers.{
  logged, append_cluster_event, entry, exec_body, cluster_exec, join_cluster,
}

-- What an accepted request leaves: an event of its type at the end of the store, which names the
-- hash of the one before, and an entry at the end of the log that names the event.
pub record IsNoted (event_type : Str) (event : ClusterEvent) (s after : State) : Type 0 where
  pub made : Event
  pub typed : made.event_type ≡ event_type
  pub linked : made.previous_hash ≡ last_hash s.store
  pub store : after.store ≡ trim (s.store ++ made ∷ [])
  pub log :
      after.log
      ≡ s.log ++ record event { provenance = recorded made.provenance_id made.rmpe_hash } ∷ []

pub append-IsNoted :
    (h : Host) (event : ClusterEvent) (body payload : Fields) (event_type : Str) (s : State)
    → named_type body ≡ some (str event_type)
    → matches_event_type event_type ≡ true
    → get (codes "payload") body ≡ some (obj payload)
    → let r = append_cluster_event h event body s in (r.0 ≡ ok tt) × IsNoted event_type event s r.1
unfolding append_cluster_event
append-IsNoted h event body payload event_type s named matches held =
    let (e, made, typed, as_given, linked) =
      record-accepted h.sha256 h.version h.py_str h.now (codes "cluster") s.store body event_type
        payload named matches (rw held (given payload)) in
    rw (made, logged)
      (refl, record { made = e; typed = typed; linked = linked; store = refl; log = refl })

-- A request to execute that names a node and a command, whatever values they are, is accepted: its
-- event is in the store, chained to the one before, and the log's new entry names that event.
pub cluster_exec-IsNoted :
    (h : Host) (body : Fields) (s : State)
    → is_falsy (member "targetNodeId" (str []) body) ≡ false
    → is_falsy (member "command" (str []) body) ≡ false
    → let target = member "targetNodeId" (str []) body in
      let command = member "command" (str []) body in
      let r = cluster_exec h body s in
      (r.0 ≡ ok tt)
      × IsNoted
          (codes "CLUSTER_EXEC_REQUEST")
          (entry h (codes "EXEC_REQUEST") target (some command))
          s
          r.1
unfolding cluster_exec exec_body get str_beq matches_event_type any
cluster_exec-IsNoted h body s t c =
    let target = member "targetNodeId" (str []) body in
    let command = member "command" (str []) body in
    rw (t, c)
      (append-IsNoted h (entry h (codes "EXEC_REQUEST") target (some command))
        (exec_body h target command) _ (codes "CLUSTER_EXEC_REQUEST") s refl refl refl)

-- A call with the host that it finds
pub data Operation : Type 0 where
  exec : Host → Fields → Operation
  join : Host → Fields → Operation

module _ (sha256 : Str → Str) (version : Str) (py_str : Value → Str) where
  -- The hash, the version and `str` are the same for all calls.
  abbrev pub on : Host → Host
  on h = record h { sha256 = sha256; version = version; py_str = py_str }

  unfoldable pub step : Operation → State → State
  step (exec h body) s = (cluster_exec (on h) body s).1
  step (join h body) s = (join_cluster (on h) body s).1

  unfoldable pub run : List Operation → State → State
  run [] s = s
  run (op ∷ ops) s = run ops (step op s)

  -- An entry of the log names an event that was sealed.
  abbrev pub AllNamed : List ClusterEvent → Type 0
  AllNamed [] = Unit
  AllNamed (c ∷ cs) =
      ((e : Event) × (c.provenance ≡ recorded e.provenance_id e.rmpe_hash)
        × IsSealed sha256 version e)
      × AllNamed cs

  pub record IsTraced (s : State) : Type 0 where
    pub chain : IsChain sha256 version s.store
    pub named : AllNamed s.log
