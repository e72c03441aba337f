-- ===== src/Companion/Store.antt =====
-- The register store (ats-pi-companion-main/src/atspi/state.py): the snapshot that the Modbus server
-- reads and the sampling loop replaces, the 24-hour window of transfers, the command registers, and
-- the writes to the state file. Definitions stand in the first four modules, proofs in the others.
-- `now_wall` is `int(time.time())`, at least 0; `now_mono` and `boot_mono` are `time.monotonic()` in
-- milliseconds. The lock is held for whole operations.
pub mod Model
pub mod Persist
pub mod Writers
pub mod Modbus
pub mod Counters
pub mod Faults
pub mod Registers
pub mod Commands
pub mod Activities
pub mod Durability
