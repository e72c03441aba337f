-- ===== src/Companion/Adam.antt =====
-- The ADAM-6060 driver (ats-pi-companion-main/src/atspi/io_adam.py). `Debounce`, `Device`, `Outputs` and
-- `Inputs` hold the definitions, the others the proofs.
pub mod Debounce
pub mod Device
pub mod Outputs
pub mod Inputs
pub mod FailSafe
pub mod Pulses
