-- ===== src/Companion/Safety/Release.antt =====
-- The comms-loss release (`run` of ats-pi-companion-main/src/atspi/safety.py), over any driver that
-- keeps the contract of a release.
use complete_gen_project.Base.{
  ℕ, ◌+◌, ◌≤◌, ◌<◌, ◌≡◌, refl, true, false, some, List, [], ◌∷◌, none, arith, All,
}
use complete_gen_project.Companion.IoDriver.{IoDriver, OutputState, Releases, release_request}
use complete_gen_project.Companion.Store.Writers.{release_maintained_commands}
use complete_gen_project.Companion.Safety.{
  Service, due, tick, Event, Timed, wake, request, disconnect, note_disconnect, Link, link_of,
  System, run, step,
}
use complete_gen_project.Companion.Safety.Tracker.{Foreign, run-Foreign}

guard-note_disconnect :
    (c : ℕ) (l : Link)
    → l.commander ≡ some c
    → (note_disconnect c l).guard ≡ record (l.guard) { commander_gone = true }
unfolding note_disconnect
guard-note_disconnect c l own = ground arith

disconnected : (c : ℕ) (l : Link) → l.commander ≡ some c → (note_disconnect c l).commander ≡ none
unfolding note_disconnect
disconnected c l own = ground arith

-- A connection drops: neither a request nor a tick.
abbrev pub IsDrop : Event → Type 0
IsDrop (disconnect conn) = Unit
IsDrop (request conn r) = ⊥
IsDrop wake = ⊥

module _ {D : Type 0} (drv : IoDriver D) where
  step-IsDrop :
      (now : ℕ) (e : Event) (s : System D) → s.commander ≡ none → IsDrop e → step drv now e s ≡ s
  unfolding step note_disconnect
  step-IsDrop now (disconnect conn) s own h = ground arith
  step-IsDrop now (request conn r) s own h = absurd h
  step-IsDrop now wake s own h = absurd h

  -- While no connection commands the switch, drops change nothing.
  run-IsDrop :
      (es : List Timed) (s : System D)
      → s.commander ≡ none
      → All (λ e. IsDrop e.event) es
      → run drv es s ≡ s
  unfolding run
  run-IsDrop [] s own h = refl
  run-IsDrop (e ∷ es) s own h = rw (step-IsDrop e.at e.event s own h.0) (run-IsDrop es s own h.1)

-- Both maintained commands are off in the store and on the hardware, and the release is latched.
pub record IsReleased {D : Type 0} (relays : D → OutputState) (s : Service D) : Type 0 where
  pub latched : s.watchdog.released ≡ true
  pub inhibit_shown_off : s.store.snap.cmd_inhibit_active ≡ false
  pub force_shown_off : s.store.snap.cmd_force_transfer_active ≡ false
  pub inhibit_off : (relays s.device).inhibit_active ≡ false
  pub force_off : (relays s.device).force_transfer_active ≡ false

module _ {D : Type 0} {drv : IoDriver D} {relays : D → OutputState}
    (law : Releases drv relays) where
  tick-IsReleased :
      (now : ℕ) (s : Service D)
      → due now s.watchdog ≡ true
      → (drv.drive_outputs now release_request s.device).0 ≡ true
      → IsReleased relays (tick drv now s)
  unfolding tick release_maintained_commands
  tick-IsReleased now s late landed = rw late (record {
    latched = rw landed;
    inhibit_shown_off = refl;
    force_shown_off = refl;
    inhibit_off = (law.release_drops now s.device landed).0;
    force_off = (law.release_drops now s.device landed).1;
  })

  -- Over a driver that keeps the contract of a release: once a connection commands the switch and
  -- then falls silent for more than 30 s, with no release latched, a tick whose driver call returns
  -- releases both maintained commands, in the store and on the hardware, and latches it, whatever
  -- other connections requested in the meantime, so long as they wrote no command.
  pub silence_releases :
      (c now : ℕ) (es : List Timed) (s : System D)
      → s.commander ≡ some c
      → All (λ e. Foreign c e.event) es
      → s.service.watchdog.released ≡ false
      → s.service.watchdog.last_read_mono + 30000 < now
      → (drv.drive_outputs now release_request s.service.device).0 ≡ true
      → IsReleased relays (step drv now wake (run drv es s)).service
  unfolding step
  silence_releases c now es s own quiet armed late landed =
      rw (run-Foreign drv c es s own quiet)
        (tick-IsReleased now s.service (unfold due in ground arith) landed)

  -- Over a driver that keeps the contract of a release: when the commanding connection drops, with no
  -- release latched, and no request of any connection comes before the next tick, that tick releases both
  -- maintained commands if its driver call returns, however short the silence was, and whichever other
  -- connections drop before it.
  pub disconnect_releases :
      (c t now : ℕ) (es : List Timed) (s : System D)
      → s.commander ≡ some c
      → s.service.watchdog.released ≡ false
      → All (λ e. IsDrop e.event) es
      → (drv.drive_outputs now release_request s.service.device).0 ≡ true
      → IsReleased relays (step drv now wake (run drv es (step drv t (disconnect c) s))).service
  unfolding step
  disconnect_releases c t now es s own armed drops landed =
      let gone = disconnected c (link_of s) own in
      rw
        (
          run-IsDrop drv es (step drv t (disconnect c) s) gone drops,
          guard-note_disconnect c (link_of s) own,
        )
        (tick-IsReleased now
          (record (s.service) { watchdog = record (s.service.watchdog) { commander_gone = true } })
          (unfold due in ground arith) landed)

module _ {D : Type 0} (drv : IoDriver D) where
  -- A tick that is due and whose driver call raises does not latch the release: every later tick is
  -- due again. The store shows the release at once, and the driver is left as the call left it.
  tick_failed :
      (now later : ℕ) (s : Service D)
      → due now s.watchdog ≡ true
      → now ≤ later
      → (drv.drive_outputs now release_request s.device).0 ≡ false
      → (due later (tick drv now s).watchdog ≡ true)
        × ((tick drv now s).store ≡ release_maintained_commands s.store)
        × ((tick drv now s).device ≡ (drv.drive_outputs now release_request s.device).1)
  unfolding tick due
  tick_failed now later s late mono failed = ground arith

  -- A release that is latched is not repeated: further ticks change nothing at all.
  pub tick-released : (now : ℕ) (s : Service D) → s.watchdog.released ≡ true → tick drv now s ≡ s
  unfolding tick due
  tick-released now s latched = ground arith
