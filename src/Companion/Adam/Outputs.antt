-- ===== src/Companion/Adam/Outputs.antt =====
-- The relays: commands, pulses, releases and the stuck-relay check (`drive_outputs`,
-- `release_all_outputs`, `_pulse`, `_release`, `_write_coil` and `check_output_consistency` of
-- ats-pi-companion-main/src/atspi/io_adam.py). Times are `time.monotonic()` in milliseconds.
use complete_gen_project.Base.{
  ℕ, ◌+◌, ◌-◌, Bool, true, false, not, ◌&&◌, ◌||◌, Option, none, some, ltb, leb, if◌then◌else◌,
  bool_eq, min, max,
}
use complete_gen_project.Companion.IoDriver.{DriveRequest, OutputState}
use complete_gen_project.Companion.Adam.Device.{
  Adam, Action, Answer, accepted, raised, Task, idle, waiting, retrying, Commanded, pure, raise,
  is_some, is_true, ◌>>◌, ask, ensure_connected,
}

-- The command outputs, DO 0 to DO 3.
pub data Output : Type 0 where
  out_test out_force out_inhibit out_bypass : Output

abbrev pub set_relay : Output → Bool → OutputState → OutputState
set_relay out_test v r = record r { test_active = v }
set_relay out_force v r = record r { force_transfer_active = v }
set_relay out_inhibit v r = record r { inhibit_active = v }
set_relay out_bypass v r = record r { bypass_delay_active = v }

abbrev pub get_relay : Output → OutputState → Bool
get_relay out_test r = r.test_active
get_relay out_force r = r.force_transfer_active
get_relay out_inhibit r = r.inhibit_active
get_relay out_bypass r = r.bypass_delay_active

unfoldable pub act : Output → Bool → Adam → Adam
act o v a = record a { relays = set_relay o v a.relays }

-- What an answer to `write_coil` means: an exception drops the connection, and may come after the
-- module has acted; an error reply has not acted.
unfoldable pub answer_write : Answer → Output → Bool → Action (Unit {0})
answer_write accepted o v a = (some tt, act o v a)
answer_write (raised true) o v a = (none, record (act o v a) { connected = false })
answer_write (raised false) o v a = (none, record a { connected = false })
answer_write _ o v a = (none, a)

unfoldable pub send_write : Output → Bool → Action (Unit {0})
send_write o v a = let (answer, a') = ask a in answer_write answer o v a'

unfoldable pub write_coil : Output → Bool → Action (Unit {0})
write_coil o v = do ensure_connected; send_write o v

unfoldable pub record_commanded : Output → Bool → ℕ → Action (Unit {0})
record_commanded out_test v now a = (some tt, record a { test_commanded = some (v, now) })
record_commanded out_force v now a = (some tt, record a { force_commanded = some (v, now) })
record_commanded out_inhibit v now a = (some tt, record a { inhibit_commanded = some (v, now) })
record_commanded out_bypass v now a = (some tt, record a { bypass_commanded = some (v, now) })

abbrev pub clamp_pulse : ℕ → ℕ
clamp_pulse ms = max 500 (min 1500 ms)

abbrev pub is_done : Task → Bool
is_done idle = true
is_done _ = false

-- The two pulsed outputs, with the slot of the release task.
pub data Pulsed : Type 0 where
  pulsed_test pulsed_bypass : Pulsed

abbrev pub output_of : Pulsed → Output
output_of pulsed_test = out_test
output_of pulsed_bypass = out_bypass

abbrev pub task_of : Pulsed → Adam → Task
task_of pulsed_test a = a.test_task
task_of pulsed_bypass a = a.bypass_task

unfoldable pub set_task : Pulsed → Task → Action (Unit {0})
set_task pulsed_test t a = (some tt, record a { test_task = t })
set_task pulsed_bypass t a = (some tt, record a { bypass_task = t })

-- `_pulse`: a re-trigger while the release is pending is ignored.
unfoldable pub pulse : Pulsed → ℕ → ℕ → Action (Unit {0})
pulse p now ms a =
    (if is_done (task_of p a)
        then (do
          write_coil (output_of p) true
          record_commanded (output_of p) true now
          set_task p (waiting (now + clamp_pulse ms)))
        else pure tt)
      a

unfoldable pub if_some : {A : Type 0} → Option A → (A → Action (Unit {0})) → Action (Unit {0})
if_some none f = pure tt
if_some (some x) f = f x

unfoldable pub maintain : Output → ℕ → Bool → Action (Unit {0})
maintain o now v = do write_coil o v; record_commanded o v now

-- The request would assert an output.
unfoldable pub asserts : DriveRequest → Bool
asserts r =
    is_some r.test_pulse_ms
    || (is_true r.inhibit || (is_true r.force_transfer || is_some r.bypass_delay_pulse_ms))

-- The part of `drive_outputs` behind the gate.
unfoldable pub drive_all : ℕ → DriveRequest → Action (Unit {0})
drive_all now r = do
  if_some r.test_pulse_ms (pulse pulsed_test now)
  if_some r.inhibit (maintain out_inhibit now)
  if_some r.force_transfer (maintain out_force now)
  if_some r.bypass_delay_pulse_ms (pulse pulsed_bypass now)

unfoldable pub drive_outputs : ℕ → DriveRequest → Action (Unit {0})
drive_outputs now r a = (if not a.hw_ok && asserts r then raise else drive_all now r) a

unfoldable pub cancel_pulses : Action (Unit {0})
cancel_pulses a = (some tt, record a { test_task = idle; bypass_task = idle })

unfoldable pub release_all_outputs : ℕ → Action (Unit {0})
release_all_outputs now = do
  cancel_pulses
  maintain out_test now false
  maintain out_force now false
  maintain out_inhibit now false
  maintain out_bypass now false

-- One attempt of `_release`: a failed write is tried again 250 ms later.
unfoldable pub attempt_release : Pulsed → ℕ → Adam → Adam
attempt_release p now a =
    let (done, a') = write_coil (output_of p) false a in
    elim done [ none ↦ (set_task p (retrying (now + 250)) a').1 | some _ ↦ (set_task p idle a').1 ]

-- The release task when it is woken: at the end of the pulse the intended state is recorded first.
unfoldable pub wake_task : Task → Pulsed → ℕ → Adam → Adam
wake_task idle p now a = a
wake_task (waiting due) p now a =
    if leb due now then attempt_release p now (record_commanded (output_of p) false now a).1 else a
wake_task (retrying due) p now a = if leb due now then attempt_release p now a else a

unfoldable pub wake_release : Pulsed → ℕ → Adam → Adam
wake_release p now a = wake_task (task_of p a) p now a

abbrev pub output_settling_ms : ℕ
output_settling_ms = 500

-- One entry of `_commanded_do` against the read-back.
abbrev pub agrees : ℕ → Commanded → Bool → Bool
agrees now none actual = true
agrees now (some (v, at)) actual = ltb (now - at) output_settling_ms || bool_eq actual v

unfoldable pub check_output_consistency : ℕ → OutputState → Adam → Bool
check_output_consistency now actual a =
    agrees now a.test_commanded actual.test_active
    && (agrees now a.force_commanded actual.force_transfer_active
        && (agrees now a.inhibit_commanded actual.inhibit_active
            && agrees now a.bypass_commanded actual.bypass_delay_active))
