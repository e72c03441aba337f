-- ===== src/Companion/Adam/Pulses.antt =====
-- The pulsed relays (`_pulse`, `_release` and `check_output_consistency` of
-- ats-pi-companion-main/src/atspi/io_adam.py).
use complete_gen_project.Base.{
  ℕ, ◌+◌, ◌≤◌, ◌≡◌, ◌≢◌, refl, true, false, none, some, arith, ◌∙◌, le→leb,
}
use complete_gen_project.Companion.IoDriver.{OutputState}
use complete_gen_project.Companion.Adam.Device.{
  Adam, Commanded, Task, idle, waiting, retrying, ◌>>=◌,
}
use complete_gen_project.Companion.Adam.Outputs.{
  Pulsed, pulsed_test, pulsed_bypass, out_test, out_bypass, is_done, output_of, task_of, get_relay,
  set_task, pulse, clamp_pulse, write_coil, record_commanded, attempt_release, wake_task,
  wake_release, check_output_consistency,
}
use complete_gen_project.Companion.Adam.FailSafe.{write_coil-some, write_coil-commanded}

is_done-false : (t : Task) → t ≢ idle → is_done t ≡ false
is_done-false t h = ground arith

-- A pulse that is asked for while the release of an earlier one is pending is ignored: nothing is
-- written, and the earlier pulse is not prolonged.
pub pulse_pending :
    (p : Pulsed) (now ms : ℕ) (a : Adam) → task_of p a ≢ idle → pulse p now ms a ≡ (some tt, a)
unfolding pulse
pulse_pending p now ms a h = rw (is_done-false (task_of p a) h)

-- The record of what was commanded of a pulsed output.
abbrev pub commanded : Pulsed → Adam → Commanded
commanded pulsed_test a = a.test_commanded
commanded pulsed_bypass a = a.bypass_commanded

attempt_failed :
    (p : Pulsed) (now : ℕ) (a : Adam)
    → (write_coil (output_of p) false a).0 ≡ none
    → (task_of p (attempt_release p now a) ≡ retrying (now + 250))
      × (commanded p (attempt_release p now a) ≡ commanded p a)
unfolding attempt_release set_task
attempt_failed pulsed_test now a h = ground (arith, write_coil-commanded out_test false a)
attempt_failed pulsed_bypass now a h = ground (arith, write_coil-commanded out_bypass false a)

attempt_landed :
    (p : Pulsed) (now : ℕ) (a : Adam)
    → (write_coil (output_of p) false a).0 ≡ some tt
    → (task_of p (attempt_release p now a) ≡ idle)
      × (get_relay (output_of p) (attempt_release p now a).relays ≡ false)
unfolding attempt_release set_task
attempt_landed pulsed_test now a h = ground (arith, write_coil-some out_test false a)
attempt_landed pulsed_bypass now a h = ground (arith, write_coil-some out_bypass false a)

overstays :
    (p : Pulsed) (now later : ℕ) (actual : OutputState) (a : Adam)
    → commanded p a ≡ some (false, now)
    → now + 500 ≤ later
    → get_relay (output_of p) actual ≡ true
    → check_output_consistency later actual a ≡ false
unfolding check_output_consistency
overstays p now later actual a h late on = ground arith

woken :
    (p : Pulsed) (due now : ℕ) (a : Adam)
    → task_of p a ≡ waiting due
    → due ≤ now
    → wake_task (task_of p a) p now a
      ≡ attempt_release p now (record_commanded (output_of p) false now a).1
unfolding wake_task
woken p due now a task le = simp (task, le→leb due now le)

woken_again :
    (p : Pulsed) (due now : ℕ) (a : Adam)
    → task_of p a ≡ retrying due
    → due ≤ now
    → wake_task (task_of p a) p now a ≡ attempt_release p now a
unfolding wake_task
woken_again p due now a task le = simp (task, le→leb due now le)

commanded-record :
    (p : Pulsed) (now : ℕ) (a : Adam)
    → commanded p (record_commanded (output_of p) false now a).1 ≡ some (false, now)
unfolding record_commanded
commanded-record pulsed_test now a = refl
commanded-record pulsed_bypass now a = refl

-- The release of a pulse that has run its time and whose write fails is tried again 250 ms later;
-- and while the relay reads back as asserted half a second later or more, the stuck-relay check
-- fails.
wake_release_failed :
    (p : Pulsed) (due now later : ℕ) (actual : OutputState) (a : Adam)
    → task_of p a ≡ waiting due
    → due ≤ now
    → (write_coil (output_of p) false (record_commanded (output_of p) false now a).1).0 ≡ none
    → now + 500 ≤ later
    → get_relay (output_of p) actual ≡ true
    → (task_of p (wake_release p now a) ≡ retrying (now + 250))
      × (check_output_consistency later actual (wake_release p now a) ≡ false)
unfolding wake_release
wake_release_failed p due now later actual a task le failed late on =
    let armed = (record_commanded (output_of p) false now a).1 in
    let (retries, kept) = attempt_failed p now armed failed in
    rw (woken p due now a task le) (
      retries,
      overstays p now later actual (attempt_release p now armed) (kept ∙ commanded-record p now a)
          late on,
    )

-- A release whose write returns, at the end of the pulse or at a later attempt, drops the relay and
-- ends the task.
pub wake_release_landed :
    (p : Pulsed) (due now : ℕ) (a : Adam)
    → task_of p a ≡ retrying due
    → due ≤ now
    → (write_coil (output_of p) false a).0 ≡ some tt
    → (task_of p (wake_release p now a) ≡ idle)
      × (get_relay (output_of p) (wake_release p now a).relays ≡ false)
unfolding wake_release
wake_release_landed p due now a task le landed =
    rw (woken_again p due now a task le) (attempt_landed p now a landed)

started :
    (p : Pulsed) (now ms : ℕ) (a : Adam)
    → task_of p a ≡ idle
    → (pulse p now ms a).0 ≡ some tt
    → (task_of p (pulse p now ms a).1 ≡ waiting (now + clamp_pulse ms))
      × (get_relay (output_of p) (pulse p now ms a).1.relays ≡ true)
unfolding pulse ◌>>=◌ record_commanded set_task
started pulsed_test now ms a free = rw free (ground (arith, write_coil-some out_test true a))
started pulsed_bypass now ms a free = rw free (ground (arith, write_coil-some out_bypass true a))

-- A pulse that starts asserts the relay, and its release falls due between 0.5 s and 1.5 s later,
-- whatever duration is asked for.
pulse_starts :
    (p : Pulsed) (now ms : ℕ) (a : Adam)
    → task_of p a ≡ idle
    → (pulse p now ms a).0 ≡ some tt
    → (due : ℕ) × (task_of p (pulse p now ms a).1 ≡ waiting due)
      × (now + 500 ≤ due)
      × (due ≤ now + 1500)
      × (get_relay (output_of p) (pulse p now ms a).1.relays ≡ true)
pulse_starts p now ms a free ok =
    let (task, relay) = started p now ms a free ok in
    (now + clamp_pulse ms, task, omega arith, omega arith, relay)
