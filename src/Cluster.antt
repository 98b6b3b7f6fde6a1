-- ===== src/Cluster.antt =====
-- backend/routes/cluster.py: the log of cluster events behind the store of provenance events, the
-- requests to join and to execute, the commands that run on this node, and the nodes with their probing
-- and provisioning; Sockets is backend/websocket/cluster.py. What the handlers ask of the host (the
-- programs, a sent message, the clock) is the record `Host`, and what other nodes answer is `Network`;
-- times are in milliseconds, and the clock stands still during one call.
pub mod Requests
pub mod Handlers
pub mod Log
pub mod Allowed
pub mod Nodes
pub mod Probes
pub mod Provision
pub mod Sockets
