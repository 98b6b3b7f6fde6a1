-- ===== src/Cluster/Handlers.antt =====
-- The handlers of backend/routes/cluster.py.
use minima_pi_net_os.Prelude.{
  str_eq, nat_eq, ℕ, ◌-◌, Str, codes, Bool, true, false, ◌||◌, Option, none, some, List, [], ◌∷◌,
  ◌++◌, length, drop, take, Result, ok, raise, http, value_error, ◌>>=◌, ◌==◌, if◌then◌else◌,
}
use minima_pi_net_os.Prelude.Int.{pos, negsuc}
use minima_pi_net_os.Json.{
  Value, null, int, str, arr, obj, nil, Fields, end, field, get, get_or, is_falsy,
}
use minima_pi_net_os.Provenance.{Event, record_provenance_event}
use minima_pi_net_os.Cluster.Requests.{
  ClusterEvent, ExecResult, Host, Outcome, State, checked_args, checked_command, clamped, completed,
  failed, int_value, join_message, master_address, member, recorded, timed_out, validation_failed,
}

module _ (h : Host) where
  -- `except ValueError` around the store's call; any other exception leaves the handler.
  abbrev pub logged : ClusterEvent → State → Result Event × List Event → Result (Unit {0}) × State
  logged event s (ok e, store) =
      let noted = record event { provenance = recorded e.provenance_id e.rmpe_hash } in
      (ok tt, record { log = s.log ++ noted ∷ []; store = store })
  logged event s (raise value_error, store) =
      let noted = record event { provenance = validation_failed } in
      (ok tt, record { log = s.log ++ noted ∷ []; store = store })
  logged event s (raise e, store) = (raise e, record s { store = store })

  unfoldable pub append_cluster_event : ClusterEvent → Fields → State → Result (Unit {0}) × State
  append_cluster_event event provenance_body s = logged event s (
      record_provenance_event h.sha256 h.version h.py_str h.now (codes "cluster")
        (obj provenance_body) s.store)

  -- The entry, without what the store says of it
  abbrev pub entry : Str → Value → Option Value → ClusterEvent
  entry kind target command = record {
    kind = kind;
    target = target;
    command = command;
    time = h.now;
    provenance = validation_failed;
  }

  unfoldable pub exec_body : Value → Value → Fields
  exec_body target_node_id command =
      field (codes "eventType") (str (codes "CLUSTER_EXEC_REQUEST")) (
        field (codes "nodeId") target_node_id (
          field (codes "payload")
            (obj
              (field (codes "targetNodeId") target_node_id (field (codes "command") command end)))
            end))

  unfoldable pub cluster_exec : Fields → State → Result (Unit {0}) × State
  cluster_exec body s =
      let target_node_id = member "targetNodeId" (str []) body in
      let command = member "command" (str []) body in
      if is_falsy target_node_id || is_falsy command
      then (raise (http 400), s)
      else append_cluster_event (entry (codes "EXEC_REQUEST") target_node_id (some command))
          (exec_body target_node_id command) s

  unfoldable pub join_body : Str → Fields
  join_body address = field (codes "eventType") (str (codes "CLUSTER_JOIN_REQUEST")) (
      field (codes "payload")
        (obj (
          field (codes "target") (str address)
            (field (codes "transport") (str (codes "maxima")) end)))
        end)

  -- The answer is whether the request was sent.
  abbrev pub answered : Result (Unit {0}) × State → Result Bool × State
  answered (ok u, s) = (ok true, s)
  answered (raise e, s) = (raise e, s)

  abbrev pub joined : Result Str → State → Result Bool × State
  joined (raise e) s = (raise e, s)
  joined (ok address) s =
      if h.maxima_send address (join_message h)
      then answered (
          append_cluster_event (entry (codes "JOIN_REQUEST") (str address) none) (join_body address)
            s)
      else (ok false, s)

  unfoldable pub join_cluster : Fields → State → Result Bool × State
  join_cluster body s = joined (master_address body) s

  abbrev pub exec_result : Value → Outcome → ExecResult
  exec_result workload_id (completed code stdout stderr) = record {
    workload_id = workload_id;
    exit_code = code;
    stdout = take 10000 stdout;
    stderr = take 10000 stderr;
    duration_ms = h.duration_ms;
  }
  exec_result workload_id timed_out = record {
    workload_id = workload_id;
    exit_code = negsuc 0;
    stdout = [];
    stderr = codes "Command timed out";
    duration_ms = h.duration_ms;
  }
  exec_result workload_id failed = record {
    workload_id = workload_id;
    exit_code = negsuc 0;
    stdout = [];
    stderr = codes "Command execution failed";
    duration_ms = h.duration_ms;
  }

  -- `if not executable`
  abbrev pub looked_up : Option Str → ℕ → Result (Str × ℕ)
  looked_up none timeout = raise (http 404)
  looked_up (some executable) timeout =
      if executable == [] then raise (http 404) else ok (executable, timeout)

  -- What is started: the executable and its timeout
  unfoldable pub started : Fields → Result (Str × ℕ)
  started body = int_value h (member "timeout" (int (pos 30000)) body) >>= λ timeout.
      checked_command (member "command" (str []) body) >>= λ cmd.
      checked_args (member "args" (arr nil) body) >>= λ u. looked_up (h.which cmd) (clamped timeout)

  unfoldable pub cluster_exec_local : Fields → Result ExecResult
  cluster_exec_local body = started body >>= λ c.
      ok (exec_result (get_or (get (codes "workloadId") body) null) (h.run c.0 c.1))

-- `cluster_event_log[-100:]`
unfoldable pub get_events : State → List ClusterEvent
get_events s = drop (length s.log - 100) s.log
