-- ===== src/Cluster/Nodes.antt =====
-- The nodes of backend/routes/cluster.py: their probing and their provisioning. What the network
-- answers (ping, a node's health, rpi-connect) is the record `Network`; what is read of a node is a
-- JSON value, since the code puts it into the node unchecked.
use minima_pi_net_os.Prelude.{
  str_eq, nat_eq, Str, codes, Bool, true, false, not, ◌&&◌, Option, none, some, List, [], ◌∷◌, map,
  length, any, leb, Result, ok, raise, http, attribute_error, ◌>>=◌, ◌==◌, if◌then◌else◌,
}
use minima_pi_net_os.Prelude.Int.{pos}
use minima_pi_net_os.Prelude.Text.{without_newline, split}
use minima_pi_net_os.Json.{Value, int, str, obj, Fields, end, field}
use minima_pi_net_os.Json.Number.{number_from}
use minima_pi_net_os.Updater.{is_digit}
use minima_pi_net_os.Cluster.Requests.{Host, State, member}
use minima_pi_net_os.Cluster.Handlers.{append_cluster_event, entry}

pub record Metrics : Type 0 where
  pub cpu : Value
  pub ram : Value
  pub temp : Value
  pub iops : Value

pub record Node : Type 0 where
  pub id : Str
  pub name : Str
  pub ip : Str
  pub hat : Str
  pub status : Str
  pub metrics : Metrics
  pub cpip_identity : Option Str
  pub cpip_public_key : Option Str
  pub cpip_attestation : Option Str

-- An entry of `results`
pub record Probed : Type 0 where
  pub id : Str
  pub name : Str
  pub ip : Str
  pub hat : Str
  pub status : Str
  pub metrics : Metrics

-- The nodes in memory and those that `save_state` wrote last, and the events
pub record Cluster : Type 0 where
  pub nodes : List Node
  pub saved : List Node
  pub events : State

pub record Network : Type 0 where
  -- ping ends with 0 in time
  pub ping : Str → Bool
  -- what `resp.json()` gives of an answer with status 200; none where there is no such answer
  pub health : Str → Option (Result Value)
  -- rpi-connect is started; otherwise it raises OSError or SubprocessError
  pub shell : Str → Bool

abbrev pub is_octet : Str → Bool
is_octet s =
    leb 1 (length s)
    && leb (length s) 3
    && not (any (λ c. not (is_digit c)) s)
    && leb (number_from 0 s) 255

abbrev pub four_octets : List Str → Bool
four_octets (a ∷ b ∷ c ∷ d ∷ []) = is_octet a && is_octet b && is_octet c && is_octet d
four_octets parts = false

-- `^(\d{1,3})\.(\d{1,3})\.(\d{1,3})\.(\d{1,3})$`, none of the four above 255
unfoldable pub is_ip : Str → Bool
is_ip s = four_octets (split b'.' (without_newline s))

abbrev pub no_metrics : Metrics
no_metrics = record { cpu = int (pos 0); ram = int (pos 0); temp = int (pos 0); iops = int (pos 0) }

abbrev pub read_metrics : Option (Result Value) → Result Metrics
read_metrics none = ok no_metrics
read_metrics (some (raise e)) = raise e
read_metrics (some (ok (obj fields))) = ok (record {
  cpu = member "cpu" (int (pos 0)) fields;
  ram = member "ram" (int (pos 0)) fields;
  temp = member "temp" (int (pos 0)) fields;
  iops = member "iops" (int (pos 0)) fields;
})
read_metrics (some (ok v)) = raise attribute_error

abbrev pub reported : Node → Str → Metrics → Probed
reported node status metrics = record {
  id = node.id;
  name = node.name;
  ip = node.ip;
  hat = node.hat;
  status = status;
  metrics = metrics;
}

-- The node's own `iops` are kept.
abbrev pub refreshed : Node → Str → Metrics → Node
refreshed node status m = record node {
  status = status;
  metrics = record node.metrics { cpu = m.cpu; ram = m.ram; temp = m.temp };
}

abbrev pub status_text : Bool → Str
status_text reachable = if reachable then codes "online" else codes "offline"

abbrev pub probed : Node → Bool → Result Metrics → Result Probed × Node
probed node reachable (raise e) = (raise e, node)
probed node reachable (ok m) =
    (ok (reported node (status_text reachable) m), refreshed node (status_text reachable) m)

unfoldable pub probe_node : Network → Node → Result Probed × Node
probe_node nw node =
    if not (is_ip node.ip)
    then (ok (reported node (codes "offline") no_metrics), node)
    else if nw.ping node.ip
    then probed node true (read_metrics (nw.health node.ip))
    else probed node false (ok no_metrics)

-- `asyncio.gather` raises what a probe raised first.
unfoldable pub gather : List (Result Probed) → Result (List Probed)
gather [] = ok []
gather (r ∷ rs) = r >>= λ p. gather rs >>= λ ps. ok (p ∷ ps)

abbrev pub discovered : Result (List Probed) → Cluster → Result (List Probed) × Cluster
discovered (raise e) c = (raise e, c)
discovered (ok results) c = (ok results, record c { saved = c.nodes })

-- `order` has the nodes in the order in which their probes end; the state is that after the last.
unfoldable pub discover_cluster : Network → List Node → Cluster → Result (List Probed) × Cluster
discover_cluster nw order c =
    discovered (gather (map (λ n. (probe_node nw n).0) order))
      (record c { nodes = map (λ n. (probe_node nw n).1) c.nodes })

abbrev pub has_id : Value → Node → Bool
has_id (str s) n = n.id == s
has_id v n = false

-- `next((n for n in state.cluster if n.id == node_id), None)`
unfoldable pub first_node : Value → List Node → Option Node
first_node node_id [] = none
first_node node_id (n ∷ ns) =
    let rest = first_node node_id ns in if has_id node_id n then some n else rest

-- The first node with the identifier gets the status.
unfoldable pub with_status : Value → Str → List Node → List Node
with_status node_id status [] = []
with_status node_id status (n ∷ ns) =
    let rest = with_status node_id status ns in
    if has_id node_id n then record n { status = status } ∷ ns else n ∷ rest

unfoldable pub set_status : Value → Str → Cluster → Cluster
set_status node_id status c =
    let nodes = with_status node_id status c.nodes in record c { nodes = nodes; saved = nodes }

module _ (h : Host) (nw : Network) where
  unfoldable pub provision_body : Value → Str → Fields
  provision_body node_id ip = field (codes "eventType") (str (codes "NODE_PROVISION_REQUEST")) (
      field (codes "nodeId") node_id (
        field (codes "payload")
          (obj (field (codes "nodeId") node_id (field (codes "ip") (str ip) end))) end))

  abbrev pub installed :
      Value → Str → Cluster → Result (Unit {0}) × State → Result (Unit {0}) × Cluster
  installed node_id ip c (raise e, s) = (raise e, record c { events = s })
  installed node_id ip c (ok u, s) =
      if nw.shell ip
      then (ok tt, record c { events = s })
      else (ok tt, set_status node_id (codes "offline") (record c { events = s }))

  abbrev pub requested : Value → Option Node → Cluster → Result (Unit {0}) × Cluster
  requested node_id none c = (raise (http 404), c)
  requested node_id (some node) c =
      if not (is_ip node.ip)
      then (raise (http 400), c)
      else installed node_id node.ip (set_status node_id (codes "provisioning") c) (
          append_cluster_event h (entry h (codes "NODE_PROVISION_REQUEST") node_id none)
            (provision_body node_id node.ip) c.events)

  unfoldable pub provision_node : Fields → Cluster → Result (Unit {0}) × Cluster
  provision_node body c =
      let node_id = member "id" (str []) body in requested node_id (first_node node_id c.nodes) c
