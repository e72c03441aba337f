-- ===== src/Companion/Safety/Disconnect.antt =====
-- What a polling client does to the release on disconnect (`ConnectionTracker` of
-- ats-pi-companion-main/src/atspi/server.py with ats-pi-companion-main/src/atspi/safety.py).
use complete_gen_project.Base.{
  ℕ, ◌+◌, ◌≤◌, ◌≡◌, refl, ◌∙◌, none, some, false, List, [], ◌∷◌, arith, All,
}
use complete_gen_project.Companion.IoDriver.{IoDriver}
use complete_gen_project.Companion.Safety.{
  Request, Timed, wake, request, disconnect, System, step, run, tick, due, note_request,
  note_disconnect, is_cmd_write,
}

-- A client that reads, and the next tick of the watchdog.
pub record Poll : Type 0 where
  pub conn : ℕ
  pub read : Request
  pub read_at : ℕ
  pub tick_at : ℕ

abbrev pub poll_events : List Poll → List Timed
poll_events [] = []
poll_events (p ∷ ps) =
    record { at = p.read_at; event = request p.conn p.read }
    ∷ record { at = p.tick_at; event = wake }
    ∷ poll_events ps

-- The request writes no command, and the tick comes within 30 s of it.
abbrev pub Prompt : Poll → Type 0
Prompt p = (is_cmd_write p.read ≡ false) × (p.tick_at ≤ p.read_at + 30000)

-- The commanded outputs are left as they are: nothing is released, in the store or on the hardware.
pub record IsUntouched {D : Type 0} (s t : System D) : Type 0 where
  pub store : t.service.store ≡ s.service.store
  pub device : t.service.device ≡ s.service.device
  pub armed : t.service.watchdog.released ≡ false

module _ {D : Type 0} (drv : IoDriver D) where
  poll_step : Poll → System D → System D
  poll_step p s = step drv p.tick_at wake (step drv p.read_at (request p.conn p.read) s)

  poll_lem :
      (p : Poll) (s : System D)
      → s.commander ≡ none
      → Prompt p
      → ((poll_step p s).commander ≡ none) × IsUntouched s (poll_step p s)
  unfolding poll_step step tick due note_request
  poll_lem p s own h = ground arith

  polls_lem :
      (ps : List Poll) (s : System D)
      → s.commander ≡ none
      → s.service.watchdog.released ≡ false
      → All Prompt ps
      → IsUntouched s (run drv (poll_events ps) s)
  unfolding run poll_step
  polls_lem [] s own armed h = record { store = refl; device = refl; armed = armed }
  polls_lem (p ∷ ps) s own armed h =
      let (own', kept) = poll_lem p s own h.0 in
      let rest = polls_lem ps (poll_step p s) own' kept.armed h.1 in
      record {
        store = rest.store ∙ kept.store;
        device = rest.device ∙ kept.device;
        armed = rest.armed;
      }

  disconnect_lem :
      (c t : ℕ) (s : System D)
      → s.commander ≡ some c
      → s.service.watchdog.released ≡ false
      → ((step drv t (disconnect c) s).commander ≡ none)
        × IsUntouched s (step drv t (disconnect c) s)
  unfolding step note_disconnect
  disconnect_lem c t s own armed = ground arith

  -- After the commanding connection drops, with no release latched, a client that polls keeps the
  -- release from ever happening: while a request that writes no command comes before each tick, and
  -- within 30 s of it, nothing is released, in the store or on the hardware.
  pub polls_suppress_release :
      (c t : ℕ) (ps : List Poll) (s : System D)
      → s.commander ≡ some c
      → s.service.watchdog.released ≡ false
      → All Prompt ps
      → IsUntouched s (run drv (poll_events ps) (step drv t (disconnect c) s))
  polls_suppress_release c t ps s own armed h =
      let (own', kept) = disconnect_lem c t s own armed in
      let rest = polls_lem ps (step drv t (disconnect c) s) own' kept.armed h in
      record {
        store = rest.store ∙ kept.store;
        device = rest.device ∙ kept.device;
        armed = rest.armed;
      }
