-- ===== src/Companion/Adam/FailSafe.antt =====
-- The releases and the fail-safe gate (`drive_outputs`, `release_all_outputs` and
-- `_verify_hw_watchdog` of ats-pi-companion-main/src/atspi/io_adam.py).
pub mod Gate
pub mod Unverified
use complete_gen_project.Base.{
  ℕ, ◌≡◌, refl, sym, ◌∙◌, ap, if◌then◌else◌, Bool, true, false, not, ◌&&◌, Option, none, some,
  arith,
}
use complete_gen_project.Companion.IoDriver.{OutputState, Releases, release_request}
use complete_gen_project.Companion.Adam.Device.{
  Adam, Action, Answer, Commanded, continue, HwWatchdogConfig, ask, ◌>>=◌, ◌>>◌, pure,
  read_holding_registers, read_back, verify_config, verify_hw_watchdog, connect, ensure_connected,
}
use complete_gen_project.Companion.Adam.Outputs.{
  Output, out_test, out_force, out_inhibit, out_bypass, set_relay, write_coil, send_write,
  answer_write, act, record_commanded, maintain, if_some, drive_outputs, drive_all, asserts,
  cancel_pulses, release_all_outputs,
}
use complete_gen_project.Companion.Adam.Inputs.{adam_driver, returned}

-- The relays, and what was commanded of them.
abbrev pub outputs_of : Adam → OutputState × Commanded × Commanded × Commanded × Commanded
outputs_of a =
    (a.relays, a.test_commanded, a.force_commanded, a.inhibit_commanded, a.bypass_commanded)

-- An action that touches neither.
pub record Keeps {A : Type 0} (m : Action A) : Type 0 where
  pub at : (a : Adam) → outputs_of (m a).1 ≡ outputs_of a

module _ {A B : Type 0} where
  Keeps-bind :
      (m : Action A) (f : A → Action B) → Keeps m → ((x : A) → Keeps (f x)) → Keeps (m >>= f)
  unfolding ◌>>=◌
  Keeps-bind m f km kf = record { at = λ a. go (m a).0 (m a).1 ∙ km.at a }
    where
      go : (r : Option A) (a : Adam) → outputs_of (continue r f a).1 ≡ outputs_of a
      go none a = refl
      go (some x) a = (kf x).at a

read_holding_registers-Keeps : (n : ℕ) → Keeps (read_holding_registers n)
unfolding read_holding_registers ask
read_holding_registers-Keeps n = record { at = λ a. ground arith }

-- An action on the relays that returned.
module _ {A B : Type 0} where
  then_some :
      (m : Action A) (k : Action B) (a : Adam) {y : B}
      → ((m >> k) a).0 ≡ some y
      → (x : A) × ((m a).0 ≡ some x) × ((m >> k) a ≡ k (m a).1)
  unfolding ◌>>=◌
  then_some m k a h = ground arith

pure-Keeps : {A : Type 0} (x : A) → Keeps (pure x)
pure-Keeps x = record { at = λ a. refl }

read_back-Keeps : (c : HwWatchdogConfig) → Keeps (read_back c)
unfolding read_back
read_back-Keeps c = search (Keeps-bind, read_holding_registers-Keeps, pure-Keeps)

verify_config-outputs :
    (c : Option HwWatchdogConfig) (a : Adam) → outputs_of (verify_config c a) ≡ outputs_of a
unfolding verify_config
verify_config-outputs none a = refl
verify_config-outputs (some c) a = ground (arith, (read_back-Keeps c).at a)

verify-outputs : (a : Adam) → outputs_of (verify_hw_watchdog a) ≡ outputs_of a
unfolding verify_hw_watchdog
verify-outputs a = ground (arith, verify_config-outputs a.hw_config a)

if-outputs :
    (b : Bool) (x y a : Adam)
    → outputs_of x ≡ outputs_of a
    → outputs_of y ≡ outputs_of a
    → outputs_of (if b then x else y) ≡ outputs_of a
if-outputs true x y a h k = h
if-outputs false x y a h k = k

connect-outputs : (a : Adam) → outputs_of (connect a).1 ≡ outputs_of a
unfolding connect ask
connect-outputs a = if-outputs _ _ _ a (verify-outputs _) refl

pub ensure_connected-Keeps : Keeps ensure_connected
unfolding ensure_connected
ensure_connected-Keeps = record { at = λ a. ground (arith, connect-outputs a) }

answer_write-some :
    (answer : Answer) (o : Output) (v : Bool) (a : Adam)
    → (answer_write answer o v a).0 ≡ some tt
    → (answer_write answer o v a).1.relays ≡ set_relay o v a.relays
unfolding answer_write act
answer_write-some answer o v a h = ground arith

send_write-some :
    (o : Output) (v : Bool) (a : Adam)
    → (send_write o v a).0 ≡ some tt
    → (send_write o v a).1.relays ≡ set_relay o v a.relays
unfolding send_write ask
send_write-some o v a h = answer_write-some _ o v _ h

pub write_coil-some :
    (o : Output) (v : Bool) (a : Adam)
    → (write_coil o v a).0 ≡ some tt
    → (write_coil o v a).1.relays ≡ set_relay o v a.relays
unfolding write_coil
write_coil-some o v a h =
    let (x, ok, e) = then_some ensure_connected (send_write o v) a h in
    ap (λ (p : Option Unit × Adam). p.1.relays) e
    ∙ send_write-some o v (ensure_connected a).1 (sym (ap (λ (p : Option Unit × Adam). p.0) e) ∙ h)
    ∙ ap (λ (q : OutputState × Commanded × Commanded × Commanded × Commanded). set_relay o v q.0)
        (ensure_connected-Keeps.at a)

-- What was commanded is not changed by a write, whether it returns or raises.
abbrev pub commanded_of : Adam → Commanded × Commanded × Commanded × Commanded
commanded_of a = (a.test_commanded, a.force_commanded, a.inhibit_commanded, a.bypass_commanded)

send_write-commanded :
    (o : Output) (v : Bool) (a : Adam) → commanded_of (send_write o v a).1 ≡ commanded_of a
unfolding send_write answer_write act ask
send_write-commanded o v a = ground arith

pub write_coil-commanded :
    (o : Output) (v : Bool) (a : Adam) → commanded_of (write_coil o v a).1 ≡ commanded_of a
unfolding write_coil ◌>>=◌
write_coil-commanded o v a =
    ground (arith, ensure_connected-Keeps.at a, send_write-commanded o v (ensure_connected a).1)

record_commanded-relays :
    (o : Output) (v : Bool) (now : ℕ) (a : Adam) → (record_commanded o v now a).1.relays ≡ a.relays
unfolding record_commanded
record_commanded-relays o v now a = ground arith

maintain-some :
    (o : Output) (v : Bool) (now : ℕ) (a : Adam)
    → (maintain o now v a).0 ≡ some tt
    → (maintain o now v a).1.relays ≡ set_relay o v a.relays
unfolding maintain
maintain-some o v now a h =
    let (x, ok, e) = then_some (write_coil o v) (record_commanded o v now) a h in
    ap (λ (p : Option Unit × Adam). p.1.relays) e
    ∙ record_commanded-relays o v now (write_coil o v a).1
    ∙ write_coil-some o v a ok

-- If the action returns, the relays are what `f` makes of those before.
record Moves (m : Action (Unit {0})) (f : OutputState → OutputState) : Type 0 where
  at : (a : Adam) → (m a).0 ≡ some tt → (m a).1.relays ≡ f a.relays

Moves-then :
    (m k : Action (Unit {0})) (f g : OutputState → OutputState)
    → Moves m f
    → Moves k g
    → Moves (m >> k) (λ r. g (f r))
Moves-then m k f g mf kg = record {
  at = λ a h.
      let (x, ok, e) = then_some m k a h in
      ap (λ (p : Option Unit × Adam). p.1.relays) e
      ∙ kg.at (m a).1 (sym (ap (λ (p : Option Unit × Adam). p.0) e) ∙ h)
      ∙ ap g (mf.at a ok);
}

Moves-maintain : (o : Output) (v : Bool) (now : ℕ) → Moves (maintain o now v) (λ r. set_relay o v r)
Moves-maintain o v now = record { at = maintain-some o v now }

Moves-nothing : Moves (pure tt) (λ r. r)
Moves-nothing = record { at = λ a h. refl }

Moves-cancel_pulses : Moves cancel_pulses (λ r. r)
unfolding cancel_pulses
Moves-cancel_pulses = record { at = λ a h. refl }

release_all-Moves :
    (now : ℕ)
    → Moves (release_all_outputs now) (λ r.
      set_relay out_bypass false
        (set_relay out_inhibit false (set_relay out_force false (set_relay out_test false r))))
unfolding release_all_outputs
release_all-Moves now = Moves-then _ _ _ _ Moves-cancel_pulses (
    Moves-then _ _ _ _ (Moves-maintain out_test false now) (
      Moves-then _ _ _ _ (Moves-maintain out_force false now) (
        Moves-then _ _ _ _ (Moves-maintain out_inhibit false now)
          (Moves-maintain out_bypass false now))))

drive_release-Moves :
    (now : ℕ)
    → Moves
        (drive_all now release_request)
        (λ r. set_relay out_force false (set_relay out_inhibit false r))
unfolding drive_all if_some
drive_release-Moves now = Moves-then _ _ _ _ Moves-nothing (
    Moves-then _ _ _ _ (Moves-maintain out_inhibit false now)
      (Moves-then _ _ _ _ (Moves-maintain out_force false now) Moves-nothing))

and-false : (b : Bool) → (b && false) ≡ false
and-false b = ground arith

drive_outputs-release :
    (now : ℕ) (a : Adam) → drive_outputs now release_request a ≡ drive_all now release_request a
unfolding drive_outputs asserts
drive_outputs-release now a = rw (and-false (not a.hw_ok))

returned-some : (r : Option (Unit {0})) → returned r ≡ true → r ≡ some tt
returned-some r h = ground arith

-- The ADAM driver keeps the contract of a release: whatever the state of the fail-safe, a release that
-- returns has dropped both maintained relays, and a reset that returns has dropped all four.
pub adam_driver-Releases : Releases adam_driver (λ a. a.relays)
unfolding adam_driver
adam_driver-Releases = record {
  release_drops = λ now a h. rw (drive_outputs-release now a) (
      let off =
        (drive_release-Moves now).at a (returned-some _ (rw (drive_outputs-release now a) at h)) in
      (
        ap (λ (r : OutputState). r.inhibit_active) off,
        ap (λ (r : OutputState). r.force_transfer_active) off,
      ));
  reset_drops = λ now a h. (release_all-Moves now).at a (returned-some _ h);
}
