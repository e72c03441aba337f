-- ===== src/Companion/Safety/Tracker.antt =====
-- Only the commanding connection keeps the watchdog quiet (`ConnectionTracker` of
-- ats-pi-companion-main/src/atspi/server.py).
use complete_gen_project.Base.{ℕ, ◌≡◌, refl, false, some, List, [], ◌∷◌, arith, ◌==◌, All}
use complete_gen_project.Companion.IoDriver.{IoDriver}
use complete_gen_project.Companion.Safety.{
  Event, request, disconnect, wake, Timed, System, step, run, note_request, note_disconnect,
  is_cmd_write,
}

-- A request that writes no command, or a disconnect, of a connection other than `c`.
abbrev pub Foreign : ℕ → Event → Type 0
Foreign c (request conn r) = ((conn == c) ≡ false) × (is_cmd_write r ≡ false)
Foreign c (disconnect conn) = (conn == c) ≡ false
Foreign c wake = ⊥

module _ {D : Type 0} (drv : IoDriver D) (c : ℕ) where
  step-Foreign :
      (now : ℕ) (e : Event) (s : System D)
      → s.commander ≡ some c
      → Foreign c e
      → step drv now e s ≡ s
  unfolding step note_request note_disconnect
  step-Foreign now (request conn r) s own h = ground arith
  step-Foreign now (disconnect conn) s own h = ground arith
  step-Foreign now wake s own h = absurd h

  -- Once a connection commands the switch, no sequence of requests and disconnects of other
  -- connections changes anything, so long as they write no command: the watchdog is not re-armed.
  pub run-Foreign :
      (es : List Timed) (s : System D)
      → s.commander ≡ some c
      → All (λ e. Foreign c e.event) es
      → run drv es s ≡ s
  unfolding run
  run-Foreign [] s own h = refl
  run-Foreign (e ∷ es) s own h = rw (step-Foreign e.at e.event s own h.0) (run-Foreign es s own h.1)
