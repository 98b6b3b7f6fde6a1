-- ===== src/Lib.antt =====
-- PiNet-OS: the backend's own logic, modelled and proved.
--
-- The program is the FastAPI backend of PiNet-OS, a system image for small nodes. Its routes
-- (backend/routes) take requests behind rate limits and middleware, and hand them to managers, each
-- of which keeps a registry in memory: sensors, LXC tenants, enclaves, marketplace listings, proofs,
-- attestation records and provenance events. Cluster peers exchange Merkle proofs of their state.
-- An updater compares versions and rewrites the installed one; a watcher calls it in a loop and tells
-- its subscribers. In front of all routes a security provider refuses probes and floods, and issues
-- the tokens of nodes.
--
-- The parts and their files here:
--   * Prelude, Dict, Json: what the components share. Prelude has the tests, lists, integers, Python's
--     exceptions as a result type and the methods of str; Dict is Python's dict with its insertion
--     order (Dict.Distinct, Dict.Change and Dict.Rebuild have the lemmas on keys, on changes in place
--     and on storing and loading); Json has the JSON values and the canonical text of json.dumps.
--   * Encoding: the standard library's base 64, UTF-8 and int() that the tokens go through, on the
--     bytes of a text.
--   * RateLimiter: backend/rate_limiter.py (RateLimiter.check, rate_limit_dependency). Trace runs a
--     sequence of requests; Window and Tracks compare it with the list of all admitted requests.
--   * Rmp: backend/rmp.py. Flatten, Levels and Fold are _flatten_state, the hashes and the tree;
--     Build is build_rmp_proof; Verify is verify_rmp_proof on any JSON value; Rnpe and Consensus are
--     the RNPE-2 functions.
--   * Provenance: backend/provenance_store.py (record_provenance_event, get_provenance_events). Chain
--     follows the hashes, Outcome says what is accepted.
--   * Attestation: backend/attestation.py (AttestationManager). Verify, Stored and Shifted are about
--     the verdict, the stored state and the directory hash.
--   * Enclave: backend/enclave_manager.py; ZkProver: backend/zk_prover.py; Marketplace:
--     backend/marketplace.py. Each is the registry as a record or a dictionary and one function for
--     each operation; an invariant is proved over all sequences of operations.
--   * Sensors: backend/sensor_manager.py, the classes of backend/models.py that it uses, and
--     backend/routes/sensors.py. Backends are the readers by bus, Manager the registry, Routes the
--     handlers, which answer an error status as the exception http.
--   * Lxc: backend/lxc_manager.py (LXCQuotaManager) with the cgroup files that it writes; Usage is what
--     it reads back, Untouched says what that leaves alone.
--   * Updater: backend/cpip_updater.py. Application is apply_update and auto_update_check;
--     Version, Check and Apply are about versions, the check and the application.
--   * Watcher: backend/cpip_watcher.py. Iteration is _watch_iteration, which calls the Updater's
--     apply_update; Rollback is _rollback_version; Loop has the task with start_watcher, stop_watcher
--     and force_check_now as a step relation, and what is reachable by it. Broadcast, Restored,
--     Counted, Repeats, Moves with Ends, and Reached are about the subscribers, the restored file,
--     what an iteration counts, repeated iterations, single steps and reachable states.
--   * Cpip: backend/cpip_provider.py. Defense is ITFDefense, Middleware CPIPSecurityMiddleware, Token
--     RpcToken, Cipher CoffeeCipher, Identity ECP256, SecureHash and NodeIdentity, Startup the self
--     tests and initialize_cpip; Endpoints are paths of the backend's own routes. The other files are
--     about the blocks (Blocks, Held, Evict), the verdict and the answer (Verdict, Served, Alike),
--     tokens (Issued, Accepted), keys (Expand) and challenges (Challenge).
--   * Users: backend/routes/users.py. auth_login puts the RateLimiter's dependency before login;
--     Consistent and Orderly are about the store, Login is about who is let in.
--   * Dapps: backend/routes/dapps.py. Entries and Pages are the registry's entries and what an
--     installation writes, Handlers the handlers. Cases splits an installation into its outcomes,
--     from which Registry and Serve follow; Names is about identifiers.
--   * Cluster: backend/routes/cluster.py. Requests has the state and the checks of a request,
--     Handlers the handlers, where append_cluster_event calls Provenance's
--     record_provenance_event; Log relates the two, Allowed is about the commands that are run. Nodes
--     has the nodes with discover_cluster and provision_node, which Probes and Provision are about;
--     Sockets is backend/websocket/cluster.py.
--   * Tpm: backend/tpm_keystore.py, where keys are sealed in software; Hardware has the hosts with a
--     TPM, whose tools are steps on the files, and Lost is about what they seal.
--   * Files: backend/routes/files.py. Files and Below are the path checks, Handlers the handlers over a
--     file system that they change, Stored what they do to it. Hsts: backend/middleware/hsts.py.
--   * Tests: the functions run on concrete inputs, and the theorems applied where their hypotheses
--     hold.
--
-- State is passed explicitly: an operation takes the registry and returns its result with the
-- registry after it. A call that raises returns `raise e` with the state as it is at that point.
-- Values that the code draws (identifiers, times, random readings) are arguments, and code that is
-- not in the repository (SHA-256, AES-GCM, elliptic curves, pydantic, the kernel, devices, GitHub)
-- is a parameter: a function, or a record of what it answers (Host, World, FileSystem, Os, Network,
-- Tools). Floats are
-- kept as their texts, or as a sum and a count; texts that are taken apart are lists of code points,
-- and where the code uses lower(), strip() or isdigit() on them they are taken as ASCII.
--
-- Fuel: the exclusive or of bytes takes eight bits; the levels of the Merkle tree are built with as
-- much fuel as the level has hashes, which is enough since every level is shorter than the one
-- below; the digits of n are printed with fuel n + 1. The watcher's loop is a step relation and needs
-- no fuel: a step is what is done between two waits. Every other function recurs on the structure
-- of its argument.
--
-- Not modelled: the system's own files, commands and sockets (backend/routes for the system, the network
-- and the terminal, backend/minima_client.py), the certificates of backend/ssl_manager.py, which run
-- openssl and certbot, the cryptography of backend/pq_tls.py, the language models behind
-- backend/llm_gateway.py, and the parts that are only glue (backend/main.py, backend/config.py). The
-- concurrency of asyncio is modelled for the watcher, and for a discovery as the order in which its
-- probes end; a provisioning is modelled as one call, though others may come between its await and
-- its end. The other operations have no await between their reads and their writes.
pub mod Prelude
pub mod Dict
pub mod Encoding
pub mod RateLimiter
pub mod Json
pub mod Rmp
pub mod Marketplace
pub mod Enclave
pub mod Updater
pub mod Cpip
pub mod Watcher
pub mod Files
pub mod Hsts
pub mod Attestation
pub mod Lxc
pub mod Tpm
pub mod Users
pub mod Dapps
pub mod Cluster
pub mod Sensors
pub mod ZkProver
pub mod Provenance
mod Tests
