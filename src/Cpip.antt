-- ===== src/Cpip.antt =====
-- backend/cpip_provider.py: the security provider. A time is a number of ticks of the clock, and
-- durations are counts of ticks too; texts that are taken apart are ASCII.
pub mod Defense
pub mod Verdict
pub mod Blocks
pub mod Served
pub mod Middleware
pub mod Alike
pub mod Evict
pub mod Token
pub mod Issued
pub mod Identity
pub mod Challenge
pub mod Startup
pub mod Cipher
pub mod Expand
pub mod Accepted
pub mod Endpoints
pub mod Held
