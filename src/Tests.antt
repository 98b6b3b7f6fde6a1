-- ===== src/Tests.antt =====
-- The components on concrete inputs: runs of the code, and the theorems where their hypotheses hold.
mod RateLimiter
mod Rmp
mod Registries
mod Provenance
mod Sensors
mod Tenants
mod Attestation
mod Updater
mod Users
mod Dapps
mod Cluster
mod Cpip
mod Watcher
mod Web
mod Files
mod Tpm
