-- ===== src/Tests/Cluster.antt =====
-- backend/routes/cluster.py on a host with two programs.
use minima_pi_net_os.Json.Number.{number_from}
use minima_pi_net_os.Prelude.Text.{split_from, without_newline}
use minima_pi_net_os.Json.{null, int, str, Fields, end, field, get, get_or}
use minima_pi_net_os.Dict.Distinct.{mem}
use minima_pi_net_os.Prelude.{
  map, Exc, value_error, ◌⊎◌, str_beq, any, str_eq, ℕ, ◌≤◌, ◌≡◌, refl, Str, codes, true, false,
  none, some, List, [], ◌∷◌, length, take, ok, raise, http, type_error, ◌==◌, if◌then◌else◌,
}
use minima_pi_net_os.Prelude.Int.{pos}
use minima_pi_net_os.Cluster.Handlers.{started, exec_result, cluster_exec_local}
use minima_pi_net_os.Cluster.Requests.{
  checked_args, int_value, checked_command, Host, State, ExecResult, completed, is_safe_address,
}
use minima_pi_net_os.Cluster.Log.{Operation, exec, join, run}
use minima_pi_net_os.Cluster.Nodes.{
  first_node, gather, Node, Probed, Cluster, Network, no_metrics, is_ip, probe_node,
  discover_cluster, provision_node,
}
use minima_pi_net_os.Cluster.Probes.{IsReported, is_garbled, discover_cluster-IsReported}
use minima_pi_net_os.Cluster.Provision.{IsProvisioned, provision_node-IsProvisioned}
use minima_pi_net_os.Cluster.Allowed.{IsStarted, cluster_exec_local-allowed}

abbrev host : Host
host = record {
  sha256 = λ s. take 20 s;
  version = codes "1.3.0";
  py_str = λ v. codes "node";
  now = 5;
  truncated = λ t. raise type_error;
  which = λ cmd. if cmd == codes "uptime" then some (codes "/usr/bin/uptime") else none;
  run = λ executable timeout. completed (pos 0) (codes "up") [];
  duration_ms = pos 12;
  maxima_send = λ address message. true;
  hostname = codes "pi";
  platform = codes "Linux aarch64";
  nonce = codes "5-ab";
}

abbrev empty : State
empty = record { log = []; store = [] }

abbrev exec_request : Fields
exec_request =
    field (codes "targetNodeId") (str (codes "n1")) (field (codes "command") (str (codes "ls")) end)

abbrev join_request : Fields
join_request = field (codes "masterAddress") (str (codes "Mx1@10.0.0.1:9001")) end

abbrev uptime : Fields
uptime = field (codes "command") (str (codes "uptime")) (field (codes "timeout") (int (pos 5)) end)

abbrev calls : List Operation
calls = exec host exec_request ∷ join host join_request ∷ exec host end ∷ []

newline_is_safe : is_safe_address (codes "Mx1@10.0.0.1:9001\n") ≡ true
unfolding is_safe_address without_newline any
newline_is_safe = refl

space_is_not_safe : is_safe_address (codes "Mx1 10") ≡ false
unfolding is_safe_address without_newline any
space_is_not_safe = refl

foreign_command :
    cluster_exec_local host (field (codes "command") (str (codes "rm")) end) ≡ raise (http 403)
unfolding cluster_exec_local started int_value get str_beq checked_command mem
foreign_command = refl

uptime_runs :
    cluster_exec_local host uptime ≡ ok (exec_result host null (completed (pos 0) (codes "up") []))
unfolding cluster_exec_local started int_value get str_beq checked_command mem checked_args
uptime_runs = refl

cluster_exec_local-allowed_example :
    let r : ExecResult = exec_result host null (completed (pos 0) (codes "up") []) in
    (executable : Str) × (timeout : ℕ) × IsStarted host uptime executable timeout
    × (r
        ≡ exec_result host
            (get_or (get (codes "workloadId") uptime) null)
            (host.run executable timeout))
    × (length r.stdout ≤ 10000)
    × (length r.stderr ≤ 10000)
cluster_exec_local-allowed_example =
    cluster_exec_local-allowed host uptime
      (exec_result host null (completed (pos 0) (codes "up") [])) uptime_runs

abbrev network : Network
network = record {
  ping = λ ip. true;
  health = λ ip. if ip == codes "10.0.0.9" then some (raise value_error) else none;
  shell = λ ip. false;
}

abbrev node : Str → Str → Node
node id ip = record {
  id = id;
  name = id;
  ip = ip;
  hat = codes "NONE";
  status = codes "online";
  metrics = no_metrics;
  cpip_identity = none;
  cpip_public_key = none;
  cpip_attestation = none;
}

abbrev cluster : Cluster
cluster =
    let nodes = node (codes "n1") (codes "10.0.0.1") ∷ node (codes "n2") (codes "10.0.0.9") ∷ [] in
    record { nodes = nodes; saved = []; events = empty }

abbrev provision_request : Fields
provision_request = field (codes "id") (str (codes "n1")) end

octets_are_bounded :
    (is_ip (codes "10.0.0.255") ≡ true)
    × (is_ip (codes "10.0.0.256") ≡ false)
    × (is_ip (codes "10.0.0") ≡ false)
unfolding is_ip split_from without_newline any number_from
octets_are_bounded = (refl, refl, refl)

one_garbled_node : (discover_cluster network cluster.nodes cluster).0 ≡ raise value_error
unfolding discover_cluster gather probe_node is_ip split_from without_newline any number_from
    str_beq
one_garbled_node = refl

provision_node-IsProvisioned_example :
    let r = provision_node host network provision_request cluster in
    (r.0 ≡ ok tt)
    × IsProvisioned host network (codes "n1") (node (codes "n1") (codes "10.0.0.1")) cluster r.1
unfolding get str_beq first_node is_ip split_from without_newline any number_from
provision_node-IsProvisioned_example =
    provision_node-IsProvisioned host network provision_request (codes "n1")
      (node (codes "n1") (codes "10.0.0.1")) cluster refl refl refl

discover_cluster-IsReported_example :
    let r = discover_cluster network cluster.nodes cluster in
    ((any (is_garbled network) cluster.nodes ≡ false)
      × ((ps : List Probed) × (r.0 ≡ ok ps) × IsReported network cluster.nodes ps)
      × (r.1.saved ≡ map (λ n. (probe_node network n).1) cluster.nodes))
    ⊎ ((any (is_garbled network) cluster.nodes ≡ true)
        × ((e : Exc) × (r.0 ≡ raise e))
        × (r.1.saved ≡ cluster.saved))
discover_cluster-IsReported_example = discover_cluster-IsReported network cluster.nodes cluster
