-- ===== src/Genwatch/Poller.antt =====
-- The poller (GenWatch-main/backend/genwatch/modbus/poller.py).
pub mod Health
pub mod Tier
pub mod Recovery
pub mod Freshness
