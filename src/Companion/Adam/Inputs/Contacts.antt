-- ===== src/Companion/Adam/Inputs/Contacts.antt =====
-- What the position and the calibration fault say of the contacts (`read_inputs` of
-- ats-pi-companion-main/src/atspi/io_adam.py).
use complete_gen_project.Base.{
  ℕ, ◌+◌, ◌<◌, ◌≤◌, ◌≡◌, ◌↔◌, Bool, true, false, List, some, if◌then◌else◌, arith, get_or,
}
use complete_gen_project.Companion.IoDriver.{utility, generator, transferring, fault_calibration}
use complete_gen_project.Companion.Adam.Debounce.{update}
use complete_gen_project.Companion.Adam.Device.{Adam}
use complete_gen_project.Companion.Adam.Inputs.{sense, position_of, bit_pulse}

-- The two position contacts, debounced, as `sense` reads them.
abbrev pub on_normal : List Bool → Adam → Bool
on_normal raw a = get_or (update raw a.debounce).0 1 false

abbrev pub on_emergency : List Bool → Adam → Bool
on_emergency raw a = get_or (update raw a.debounce).0 2 false

-- Outside the stroke of the switch, the driver reports the generator exactly if the debounced
-- emergency contact is closed and the normal one open, the utility exactly the other way round, and
-- the calibration fault exactly if both are closed.
sense_contacts :
    (now : ℕ) (raw : List Bool) (a : Adam)
    → bit_pulse (if get_or raw 0 false then some now else a.load_disconnect_seen) now ≡ false
    → (((sense now raw a).0.position ≡ generator)
        ↔ ((on_normal raw a ≡ false) × (on_emergency raw a ≡ true)))
      × (((sense now raw a).0.position ≡ utility)
          ↔ ((on_normal raw a ≡ true) × (on_emergency raw a ≡ false)))
      × (((sense now raw a).0.fault_bits ≡ fault_calibration)
          ↔ ((on_normal raw a ≡ true) × (on_emergency raw a ≡ true)))
unfolding sense position_of
sense_contacts now raw a = ground arith

-- Once the raw Load Disconnect contact is seen, every read within 2 s of it reports the stroke of the
-- switch, whatever the contacts then show.
sense-hold :
    (t u : ℕ) (raw raw' : List Bool) (a : Adam)
    → get_or raw 0 false ≡ true
    → t ≤ u
    → u < t + 2000
    → ((sense t raw a).0.position ≡ transferring)
      × ((sense u raw' (sense t raw a).1).0.position ≡ transferring)
unfolding sense position_of bit_pulse
sense-hold t u raw raw' a pressed le soon = ground arith
