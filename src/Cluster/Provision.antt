-- ===== src/Cluster/Provision.antt =====
-- What a provisioning of backend/routes/cluster.py changes.
use minima_pi_net_os.Prelude.{
  str_eq, str_beq, ◌≡◌, refl, ap, sym, ◌∙◌, Str, codes, true, false, none, some, List, [], ◌∷◌, any,
  Result, ok, raise, inl, inr, Bool-cases, beq_iff, ◌≢◌, ◌==◌, if◌then◌else◌,
}
use mathlib.Core.Option.{some-injective}
use minima_pi_net_os.Json.{str, Fields, get}
use minima_pi_net_os.Provenance.{matches_event_type}
use minima_pi_net_os.Cluster.Requests.{Host, State, member}
use minima_pi_net_os.Cluster.Handlers.{entry}
use minima_pi_net_os.Cluster.Log.{IsNoted, append-IsNoted}
use minima_pi_net_os.Cluster.Nodes.{
  Node, Cluster, Network, is_ip, has_id, first_node, with_status, set_status, provision_body,
  installed, requested, provision_node,
}

-- The first node with the identifier, with the status; any other node is as it was.
pub record IsMarked (id status : Str) (node : Node) (before after : List Node) : Type 0 where
  pub found : first_node (str id) after ≡ some (record node { status = status })
  pub others :
      (other : Str) → other ≢ id → first_node (str other) after ≡ first_node (str other) before

other_id :
    (id other : Str) (n : Node)
    → has_id (str id) n ≡ true
    → other ≢ id
    → has_id (str other) n ≡ false
other_id id other n mine differs = elim (Bool-cases (n.id == other)) [
  | inr foreign ↦ foreign
  | inl same ↦ absurd (differs (sym ((beq_iff n.id other).0 same) ∙ (beq_iff n.id id).0 mine))
]

with_status-IsMarked :
    (id status : Str) (node : Node) (ns : List Node)
    → first_node (str id) ns ≡ some node
    → IsMarked id status node ns (with_status (str id) status ns)
unfolding first_node with_status
with_status-IsMarked id status node [] h = absurd (cc)
with_status-IsMarked id status node (n ∷ ns) h = elim (Bool-cases (n.id == id)) [
  | inl mine ↦
      let first : some n ≡ some node = rw mine at h in
      let same = some-injective n node first in
      record {
        found = rw (mine, mine, same) refl;
        others = λ other differs. rw (mine, other_id id other n mine differs) refl;
      }
  | inr foreign ↦
      let first : first_node (str id) ns ≡ some node = rw foreign at h in
      let m = with_status-IsMarked id status node ns first in
      record {
        found = rw (foreign, foreign) m.found;
        others = λ other differs.
            rw foreign (ap (λ r. if n.id == other then some n else r) (m.others other differs));
      }
]

pub record IsProvisioned (h : Host) (nw : Network) (id : Str) (node : Node) (c after : Cluster)
    : Type 0 where
  pub noted :
      IsNoted
        (codes "NODE_PROVISION_REQUEST")
        (entry h (codes "NODE_PROVISION_REQUEST") (str id) none)
        c.events
        after.events
  pub marked :
      IsMarked id
        (if nw.shell node.ip then codes "provisioning" else codes "offline")
        node
        c.nodes
        after.nodes
  pub kept : after.saved ≡ after.nodes

-- To mark a node twice is to mark it with the second status.
IsMarked-again :
    (id first second : Str) (node : Node) (before middle after : List Node)
    → IsMarked id first node before middle
    → IsMarked id second (record node { status = first }) middle after
    → IsMarked id second node before after
IsMarked-again id first second node before middle after m n = record {
  found = n.found;
  others = λ other differs. n.others other differs ∙ m.others other differs;
}

installed-IsProvisioned :
    (h : Host) (nw : Network) (id : Str) (node : Node) (c : Cluster) (r : Result (Unit {0}) × State)
    → first_node (str id) c.nodes ≡ some node
    → r.0 ≡ ok tt
    → IsNoted
        (codes "NODE_PROVISION_REQUEST")
        (entry h (codes "NODE_PROVISION_REQUEST") (str id) none)
        c.events
        r.1
    → let out = installed h nw (str id) node.ip (set_status (str id) (codes "provisioning") c) r in
      (out.0 ≡ ok tt) × IsProvisioned h nw id node c out.1
unfolding set_status
installed-IsProvisioned h nw id node c (raise e, s) there done noted = absurd (cc)
installed-IsProvisioned h nw id node c (ok u, s) there done noted =
    let first = with_status-IsMarked id (codes "provisioning") node c.nodes there in
    elim (Bool-cases (nw.shell node.ip)) [
      | inl runs ↦ rw runs (refl, record { noted = noted; marked = rw runs first; kept = refl })
      | inr fails ↦
          let second =
            with_status-IsMarked id (codes "offline") _
              (with_status (str id) (codes "provisioning") c.nodes) first.found in
          rw fails (
            refl,
            record {
              noted = noted;
              marked = rw fails (IsMarked-again id _ _ node _ _ _ first second);
              kept = refl;
            },
          )
    ]

requested-IsProvisioned :
    (h : Host) (nw : Network) (id : Str) (node : Node) (c : Cluster)
    → first_node (str id) c.nodes ≡ some node
    → is_ip node.ip ≡ true
    → let r = requested h nw (str id) (some node) c in
      (r.0 ≡ ok tt) × IsProvisioned h nw id node c r.1
unfolding provision_body get str_beq matches_event_type any
requested-IsProvisioned h nw id node c there address =
    let e = entry h (codes "NODE_PROVISION_REQUEST") (str id) none in
    let (done, noted) =
      append-IsNoted h e (provision_body h nw (str id) node.ip) _ (codes "NODE_PROVISION_REQUEST")
        c.events refl refl refl in
    rw address (installed-IsProvisioned h nw id node c _ there done noted)

-- A provisioning of a node that is there under an address is accepted, whether rpi-connect is started
-- or not: its event is in the store and in the log, the node is marked as provisioning or offline
-- by whether it was started, all other nodes are found as before, and the nodes are saved.
pub provision_node-IsProvisioned :
    (h : Host) (nw : Network) (body : Fields) (id : Str) (node : Node) (c : Cluster)
    → member "id" (str []) body ≡ str id
    → first_node (str id) c.nodes ≡ some node
    → is_ip node.ip ≡ true
    → let r = provision_node h nw body c in (r.0 ≡ ok tt) × IsProvisioned h nw id node c r.1
unfolding provision_node
provision_node-IsProvisioned h nw body id node c named there address =
    let found : provision_node h nw body c ≡ requested h nw (str id) (some node) c =
      ap (λ v. requested h nw v (first_node v c.nodes) c) named
      ∙ ap (λ o. requested h nw (str id) o c) there in
    rw found (requested-IsProvisioned h nw id node c there address)
