-- ===== src/Companion/Adam/FailSafe/Unverified.antt =====
-- Without a verified fail-safe no relay closes (`drive_outputs` of
-- ats-pi-companion-main/src/atspi/io_adam.py).
use complete_gen_project.Base.{
  ℕ, ◌≡◌, Bool, true, false, not, ◌&&◌, Option, none, some, arith, Bool-cases, inl, inr,
}
use complete_gen_project.Companion.IoDriver.{DriveRequest, OutputState}
use complete_gen_project.Companion.Adam.Device.{
  Adam, Action, Answer, ask, ◌>>=◌, ◌>>◌, pure, is_some, is_true, ensure_connected,
}
use complete_gen_project.Companion.Adam.Outputs.{
  Output, out_force, out_inhibit, set_relay, get_relay, write_coil, send_write, answer_write, act,
  record_commanded, maintain, if_some, drive_outputs, drive_all, asserts,
}
use complete_gen_project.Companion.Adam.FailSafe.{ensure_connected-Keeps}

-- Every relay that is closed in the first is closed in the second.
abbrev Below : OutputState → OutputState → Type 0
Below r s = (o : Output) → get_relay o r ≡ true → get_relay o s ≡ true

-- An action that closes no relay, whether it returns or raises.
record Lowers {A : Type 0} (m : Action A) : Type 0 where
  at : (a : Adam) → Below (m a).1.relays a.relays

set-Below : (o : Output) (r : OutputState) → Below (set_relay o false r) r
set-Below o r p h = ground arith

answer-Below :
    (answer : Answer) (o : Output) (a : Adam)
    → Below (answer_write answer o false a).1.relays a.relays
unfolding answer_write act
answer-Below answer o a p h = ground (arith, set-Below o a.relays p)

send-Below : (o : Output) (a : Adam) → Below (send_write o false a).1.relays a.relays
unfolding send_write ask
send-Below o a p h = answer-Below _ o _ p h

Lowers-then : {A B : Type 0} (m : Action A) (k : Action B) → Lowers m → Lowers k → Lowers (m >> k)
unfolding ◌>>=◌
Lowers-then m k ml kl = record { at = λ a p h. ground (arith, ml.at a p, kl.at (m a).1 p) }

Lowers-pure : {A : Type 0} (x : A) → Lowers (pure x)
Lowers-pure x = record { at = λ a p h. h }

Lowers-connect : Lowers ensure_connected
Lowers-connect = record { at = λ a p h. ground (arith, ensure_connected-Keeps.at a) }

Lowers-write : (o : Output) → Lowers (write_coil o false)
unfolding write_coil
Lowers-write o = Lowers-then _ _ Lowers-connect (record { at = send-Below o })

Lowers-record : (o : Output) (v : Bool) (now : ℕ) → Lowers (record_commanded o v now)
unfolding record_commanded
Lowers-record o v now = record { at = λ a p h. ground arith }

Lowers-maintain : (o : Output) (now : ℕ) → Lowers (maintain o now false)
unfolding maintain
Lowers-maintain o now = Lowers-then _ _ (Lowers-write o) (Lowers-record o false now)

-- A value that is maintained where the request names it, and that is not to assert.
Lowers-option :
    (o : Output) (now : ℕ) (v : Option Bool)
    → is_true v ≡ false
    → Lowers (if_some v (maintain o now))
unfolding if_some
Lowers-option o now none h = Lowers-pure tt
Lowers-option o now (some true) h = cc
Lowers-option o now (some false) h = Lowers-maintain o now

Lowers-absent :
    (n : Option ℕ) (f : ℕ → Action (Unit {0})) → is_some n ≡ false → Lowers (if_some n f)
unfolding if_some
Lowers-absent none f h = Lowers-pure tt
Lowers-absent (some n) f h = cc

asserts-false :
    (r : DriveRequest)
    → asserts r ≡ false
    → (is_some r.test_pulse_ms ≡ false)
      × (is_true r.inhibit ≡ false)
      × (is_true r.force_transfer ≡ false)
      × (is_some r.bypass_delay_pulse_ms ≡ false)
unfolding asserts
asserts-false r h = ground arith

Lowers-drive_all : (now : ℕ) (r : DriveRequest) → asserts r ≡ false → Lowers (drive_all now r)
unfolding drive_all
Lowers-drive_all now r h =
    let (no_test, inhibit, force, no_bypass) = asserts-false r h in
    Lowers-then _ _ (Lowers-absent r.test_pulse_ms _ no_test) (
      Lowers-then _ _ (Lowers-option out_inhibit now r.inhibit inhibit) (
        Lowers-then _ _ (Lowers-option out_force now r.force_transfer force)
          (Lowers-absent r.bypass_delay_pulse_ms _ no_bypass)))

and-false : (b : Bool) → (b && false) ≡ false
and-false b = ground arith

-- While the fail-safe is not verified, no request closes a relay that is open, whatever it asks for and
-- whatever the module answers, also where a write raises halfway.
pub drive_outputs-unverified :
    (now : ℕ) (r : DriveRequest) (a : Adam) (o : Output)
    → a.hw_ok ≡ false
    → get_relay o (drive_outputs now r a).1.relays ≡ true
    → get_relay o a.relays ≡ true
unfolding drive_outputs
drive_outputs-unverified now r a o bad h = elim (Bool-cases (asserts r)) [
  | inl on ↦ rw (bad, on) at h
  | inr off ↦ (Lowers-drive_all now r off).at a o (rw (off, and-false (not a.hw_ok)) at h)
]
