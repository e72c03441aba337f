-- ===== src/Genwatch/Ats.antt =====
-- The link to the companion (GenWatch-main/backend/genwatch/services/ats.py).
pub mod Model
pub mod Update
pub mod Authority
pub mod Faults
pub mod Quiet
pub mod Comms
