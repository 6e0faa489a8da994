-- ===== src/Api.antt =====
-- app/api: the forms of the tools page.
pub mod Tools
pub mod Trusted
pub mod Export
pub mod Channels
mod Tests
