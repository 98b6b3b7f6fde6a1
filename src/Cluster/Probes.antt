-- ===== src/Cluster/Probes.antt =====
-- What a discovery of backend/routes/cluster.py answers and keeps.
use minima_pi_net_os.Prelude.{
  str_eq, ◌≡◌, refl, Bool, true, false, ◌&&◌, List, [], ◌∷◌, map, any, Exc, Result, ok, raise,
  arith, ◌⊎◌, inl, inr, Bool-cases,
}
use minima_pi_net_os.Cluster.Nodes.{
  Node, Probed, Cluster, Network, Metrics, is_ip, status_text, read_metrics, no_metrics, reported,
  probed, probe_node, gather, discover_cluster,
}

abbrev pub is_raised : Result Metrics → Bool
is_raised (raise e) = true
is_raised (ok m) = false

abbrev pub is_reached : Network → Node → Bool
is_reached nw n = is_ip n.ip && nw.ping n.ip

-- A node that answers ping, and its health with status 200 but not with a JSON object
abbrev pub is_garbled : Network → Node → Bool
is_garbled nw n = is_reached nw n && is_raised (read_metrics (nw.health n.ip))

probed-garbled :
    (n : Node) (b : Bool) (r : Result Metrics)
    → is_raised r ≡ true
    → (e : Exc) × (probed n b r ≡ (raise e, n))
probed-garbled n b (raise e) h = (e, refl)
probed-garbled n b (ok m) h = absurd (cc)

probed-clear :
    (n : Node) (b : Bool) (r : Result Metrics)
    → is_raised r ≡ false
    → (m : Metrics) × ((probed n b r).0 ≡ ok (reported n (status_text b) m))
probed-clear n b (raise e) h = absurd (cc)
probed-clear n b (ok m) h = (m, refl)

probe_node-garbled :
    (nw : Network) (n : Node)
    → is_garbled nw n ≡ true
    → (e : Exc) × (probe_node nw n ≡ (raise e, n))
unfolding probe_node
probe_node-garbled nw n h =
    let named : is_ip n.ip ≡ true = ground arith in
    let answers : nw.ping n.ip ≡ true = ground arith in
    let (e, same) = probed-garbled n true (read_metrics (nw.health n.ip)) (ground arith) in
    (e, rw (named, answers) same)

probe_node-clear :
    (nw : Network) (n : Node)
    → is_garbled nw n ≡ false
    → (m : Metrics) × ((probe_node nw n).0 ≡ ok (reported n (status_text (is_reached nw n)) m))
unfolding probe_node
probe_node-clear nw n h = elim (Bool-cases (is_ip n.ip)) [
  | inr foreign ↦ (no_metrics, rw foreign refl)
  | inl named ↦ elim (Bool-cases (nw.ping n.ip)) [
    | inr silent ↦ (no_metrics, rw (named, silent) refl)
    | inl answers ↦
        let (m, same) = probed-clear n true (read_metrics (nw.health n.ip)) (ground arith) in
        (m, rw (named, answers) same)
  ]
]

-- The results without the metrics that were read
pub data IsReported (nw : Network) : List Node → List Probed → Type 0 where
  none_left : IsReported nw [] []
  next_one :
      {n : Node} {ns : List Node} {ps : List Probed} (m : Metrics)
      → IsReported nw ns ps
      → IsReported nw (n ∷ ns) (reported n (status_text (is_reached nw n)) m ∷ ps)

gather-clear :
    (nw : Network) (ns : List Node)
    → any (is_garbled nw) ns ≡ false
    → (ps : List Probed) × (gather (map (λ n. (probe_node nw n).0) ns) ≡ ok ps)
      × IsReported nw ns ps
unfolding gather any
gather-clear nw [] h = ([], refl, none_left)
gather-clear nw (n ∷ ns) h =
    let (m, first) = probe_node-clear nw n (ground arith) in
    let (ps, rest, all) = gather-clear nw ns (ground arith) in
    (_, rw (first, rest) refl, next_one m all)

gather-garbled :
    (nw : Network) (ns : List Node)
    → any (is_garbled nw) ns ≡ true
    → (e : Exc) × (gather (map (λ n. (probe_node nw n).0) ns) ≡ raise e)
unfolding gather any
gather-garbled nw [] h = absurd (cc)
gather-garbled nw (n ∷ ns) h = elim (Bool-cases (is_garbled nw n)) [
  | inl bad ↦ let (e, same) = probe_node-garbled nw n bad in (e, rw same refl)
  | inr good ↦
      let (m, first) = probe_node-clear nw n good in
      let (e, rest) = gather-garbled nw ns (ground arith) in (e, rw (first, rest) refl)
]

-- A discovery reports every node, online where its address is an address and it answers ping, and
-- saves the nodes; but where one node that answers ping answers its health with anything but a JSON
-- object, the whole discovery raises and saves nothing.
pub discover_cluster-IsReported :
    (nw : Network) (order : List Node) (c : Cluster)
    → let r = discover_cluster nw order c in
      ((any (is_garbled nw) order ≡ false)
        × ((ps : List Probed) × (r.0 ≡ ok ps) × IsReported nw order ps)
        × (r.1.saved ≡ map (λ n. (probe_node nw n).1) c.nodes))
      ⊎ ((any (is_garbled nw) order ≡ true) × ((e : Exc) × (r.0 ≡ raise e)) × (r.1.saved ≡ c.saved))
unfolding discover_cluster
discover_cluster-IsReported nw order c = elim (Bool-cases (any (is_garbled nw) order)) [
  | inr good ↦
      let (ps, same, all) = gather-clear nw order good in
      inl (good, (ps, rw same refl, all), rw same refl)
  | inl bad ↦
      let (e, same) = gather-garbled nw order bad in inr (bad, (e, rw same refl), rw same refl)
]
