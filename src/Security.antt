-- ===== src/Security.antt =====
-- app/security: the access policy, its settings, and the middleware that enforces it.
mod Tests
pub mod Names
pub mod Hosts
pub mod Cidrs
pub mod Settings
pub mod Update
pub mod Limiter
pub mod Access
pub mod Secrets
pub mod KeyFiles
