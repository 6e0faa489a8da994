-- ===== src/Unifi.antt =====
-- app/unifi: the band labels, and the client of the UniFi controller.
pub mod Band
pub mod Client
