-- ===== src/Cluster/Sockets.antt =====
-- The clients of backend/websocket/cluster.py, and the answers of backend/routes/cluster.py that only
-- read. A client is a number, since the code compares connections by identity.
use minima_pi_net_os.Prelude.{
  nat_eq, ℕ, ◌≡◌, refl, ◌⊎◌, inl, inr, beq_iff, ◌∙◌, codes, Bool, true, false, not, ◌&&◌, Option,
  none, some, List, [], ◌∷◌, ◌++◌, keep, arith, ◌==◌, if◌then◌else◌,
}
use minima_pi_net_os.Dict.Distinct.{mem}
use minima_pi_net_os.Json.{Value, bool, str, arr, nil, obj, end, field}
use minima_pi_net_os.Watcher.{without}
use minima_pi_net_os.Watcher.Broadcast.{without-keep, mem-keep}

-- A message is taken; sending raises OSError or RuntimeError; or it raises something else.
pub data Sent : Type 0 where
  taken lost raised : Sent

abbrev pub is_taken : Sent → Bool
is_taken taken = true
is_taken lost = false
is_taken raised = false

-- The clients that are lost; none where an exception ends the broadcast.
abbrev pub or_dead : ℕ → Sent → Option (List ℕ) → Option (List ℕ)
or_dead ws taken rest = rest
or_dead ws lost none = none
or_dead ws lost (some dead) = some (ws ∷ dead)
or_dead ws raised rest = none

unfoldable pub dead_among : (ℕ → Sent) → List ℕ → Option (List ℕ)
dead_among send [] = some []
dead_among send (ws ∷ clients) = or_dead ws (send ws) (dead_among send clients)

-- `_cluster_ws_clients.difference_update(dead)`
abbrev pub difference_update : Option (List ℕ) → List ℕ → List ℕ
difference_update none clients = clients
difference_update (some dead) clients = without dead clients

unfoldable pub broadcast_cluster_event : (ℕ → Sent) → List ℕ → List ℕ
broadcast_cluster_event send clients = difference_update (dead_among send clients) clients

-- `_cluster_ws_clients.add(websocket)` and `.discard(websocket)`
abbrev pub add : ℕ → List ℕ → List ℕ
add ws clients = if mem ws clients then clients else clients ++ ws ∷ []

abbrev pub discard : ℕ → List ℕ → List ℕ
discard ws clients = keep (λ c. not (c == ws)) clients

-- A turn of the loop: a message came, the wait ended and a ping was sent, or the client went away.
pub data Turn : Type 0 where
  message : Turn
  waited : Sent → Turn
  disconnected : Turn

-- Whether the connection is still open after the turns
unfoldable pub talk : List Turn → Bool
talk [] = true
talk (message ∷ turns) = talk turns
talk (waited sent ∷ turns) = is_taken sent && talk turns
talk (disconnected ∷ turns) = false

-- The clients after a connection that has had its first message sent and these turns, while the others
-- come and go: `meanwhile` is what they make of the clients.
unfoldable pub websocket_cluster : ℕ → Sent → List Turn → (List ℕ → List ℕ) → List ℕ → List ℕ
websocket_cluster ws first turns meanwhile clients =
    let held = meanwhile (add ws clients) in
    if is_taken first && talk turns then held else discard ws held

-- `fetch_cluster_state`: the answer with status 200, or that there is none
unfoldable pub fetch_cluster_state : Option Value → Value
fetch_cluster_state (some v) = v
fetch_cluster_state none = obj (
    field (codes "available") (bool false) (
      field (codes "reason") (str (codes "cluster manager unavailable"))
        (field (codes "nodes") (arr nil) end)))

dead_among-keep :
    (send : ℕ → Sent) (clients : List ℕ)
    → ((c : ℕ) → (send c ≡ taken) ⊎ (send c ≡ lost))
    → dead_among send clients ≡ some (keep (λ c. not (is_taken (send c))) clients)
unfolding dead_among keep
dead_among-keep send [] h = refl
dead_among-keep send (ws ∷ clients) h = elim (h ws) [
  | inl t ↦ rw (dead_among-keep send clients h, t, or_dead) refl
  | inr l ↦ rw (dead_among-keep send clients h, l, or_dead) refl
]

-- A broadcast whose sends fail by OSError or RuntimeError at most keeps the clients that took it.
pub broadcast_cluster_event-keep :
    (send : ℕ → Sent) (clients : List ℕ)
    → ((c : ℕ) → (send c ≡ taken) ⊎ (send c ≡ lost))
    → broadcast_cluster_event send clients ≡ keep (λ c. is_taken (send c)) clients
unfolding broadcast_cluster_event
broadcast_cluster_event-keep send clients h =
    rw (dead_among-keep send clients h, difference_update)
      (without-keep (λ c. is_taken (send c)) clients)

-- A connection that has ended is no client any more, whatever ended it and whatever the others did.
pub websocket_cluster-ended :
    (ws : ℕ) (first : Sent) (turns : List Turn) (meanwhile : List ℕ → List ℕ) (clients : List ℕ)
    → (is_taken first && talk turns) ≡ false
    → mem ws (websocket_cluster ws first turns meanwhile clients) ≡ false
unfolding websocket_cluster
websocket_cluster-ended ws first turns meanwhile clients h =
    rw h (
      mem-keep (λ c. not (c == ws)) ws (meanwhile (add ws clients)) ∙ ground (arith, beq_iff ws ws))
