-- ===== src/Rmp.antt =====
-- backend/rmp.py: recursive Merkle proofs of a state, and the RNPE-2 block requests.
-- `sha256` stands for `hashlib.sha256(value.encode("utf-8")).hexdigest()`.
pub mod Flatten
pub mod Levels
pub mod Fold
pub mod Verify
pub mod Build
pub mod Complete
pub mod Accept
pub mod Honest
pub mod Sound
pub mod Rnpe
pub mod Consensus
pub mod Ambiguous
pub mod Malformed
