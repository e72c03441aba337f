-- ===== src/Companion.antt =====
-- The ATS-Pi companion (ats-pi-companion-main/src/atspi): one module per file of the package.
pub mod IoDriver
pub mod Persistence
pub mod Store
pub mod Safety
pub mod Server
pub mod Adam
pub mod Hybrid
pub mod Service
pub mod Examples
