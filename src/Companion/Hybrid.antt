-- ===== src/Companion/Hybrid.antt =====
-- The driver that reads the switch over a serial line and commands it over the ADAM
-- (`IOHybridDriver` of ats-pi-companion-main/src/atspi/io_hybrid.py). The serial reader is a
-- parameter; the part for the outputs is any driver, with its connection.
use complete_gen_project.Base.{ℕ, Bool, ◌&&◌, Option}
use complete_gen_project.Companion.IoDriver.{InputSnapshot, OutputState, IoDriver, Releases}

-- A connection that may be opened, with its verdict, and closed: `false` where `close` raises.
pub record Connection (D : Type 0) : Type 0 where
  pub connect : D → Bool × D
  pub close : D → Bool × D

pub record Reader (R : Type 0) : Type 0 where
  pub line : Connection R
  pub read : ℕ → R → Option InputSnapshot × R

module _ {R D : Type 0} (reader : Reader R) (outputs : IoDriver D) where
  -- The methods of the driver: the inputs from the line, all else delegated.
  unfoldable pub hybrid_driver : IoDriver (R × D)
  hybrid_driver = record {
    read_inputs = λ now s. let (inputs, r) = reader.read now s.0 in (inputs, (r, s.1));
    read_output_state = λ now s. let (o, d) = outputs.read_output_state now s.1 in (o, (s.0, d));
    drive_outputs =
        λ now intent s. let (ok, d) = outputs.drive_outputs now intent s.1 in (ok, (s.0, d));
    release_all_outputs =
        λ now s. let (ok, d) = outputs.release_all_outputs now s.1 in (ok, (s.0, d));
    check_output_consistency = λ now o s. outputs.check_output_consistency now o s.1;
    hw_watchdog_ok = λ s. outputs.hw_watchdog_ok s.1;
  }

  -- `connect`: the control path first; both are opened.
  unfoldable pub connect_both : Connection D → R × D → Bool × (R × D)
  connect_both line s =
      let (out_ok, d) = line.connect s.1 in
      let (in_ok, r) = reader.line.connect s.0 in (out_ok && in_ok, (r, d))

  -- `close`: the outputs are closed even where the close of the line raises.
  unfoldable pub close_both : Connection D → R × D → Bool × (R × D)
  close_both line s =
      let (in_ok, r) = reader.line.close s.0 in
      let (out_ok, d) = line.close s.1 in (in_ok && out_ok, (r, d))

  -- The driver keeps the contract of a release that its part for the outputs keeps, whatever the line
  -- does.
  pub hybrid_driver-Releases :
      {relays : D → OutputState}
      → Releases outputs relays
      → Releases hybrid_driver (λ s. relays s.1)
  unfolding hybrid_driver
  hybrid_driver-Releases law = record {
    release_drops = λ now s ok. law.release_drops now s.1 ok;
    reset_drops = λ now s ok. law.reset_drops now s.1 ok;
  }
