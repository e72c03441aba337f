-- ===== src/Genwatch.antt =====
-- GenWatch (GenWatch-main/backend/genwatch).
pub mod Registers
pub mod LoadSource
pub mod RateLimit
pub mod Examples
pub mod Alarms
pub mod Validation
pub mod Poller
pub mod Ats
pub mod Tokens
pub mod Control
pub mod AtsControl
pub mod Commands
pub mod Fuel
pub mod Sessions
pub mod Accounts
pub mod Ranges
