-- ===== src/Scanner.antt =====
-- app/scanner.py: the scan of the clients that the UniFi controller reports.
mod Tests
pub mod Telemetry
pub mod Upsert
pub mod Alerts
pub mod Run
pub mod Cooldown
pub mod Selection
pub mod Kept
pub mod Decisions
pub mod Deliveries
pub mod Growth
pub mod Outcome
