-- ===== src/Services.antt =====
-- app/services: the changes that a user makes to devices, and their record.
mod Tests
pub mod Log
pub mod Devices
