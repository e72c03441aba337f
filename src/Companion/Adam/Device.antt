-- ===== src/Companion/Adam/Device.antt =====
-- The driver's state, the wire to the module, and the connection with its fail-safe check
-- (`IOAdamDriver.__init__`, `connect`, `close`, `_ensure_connected`, `_verify_hw_watchdog` and the
-- Modbus calls of ats-pi-companion-main/src/atspi/io_adam.py).
-- pymodbus and the module are outside: each call of the client takes the next of the answers that they
-- will give. A write may act on the relays even where its answer is lost. The texts of the status and
-- the log are left out; scales and bands in seconds are in milliseconds.
use complete_gen_project.Base.{
  ℕ, ◌*◌, Bool, true, false, not, ◌&&◌, Option, none, some, List, [], ◌∷◌, leb, ◌==◌, if◌then◌else◌,
  take,
}
use complete_gen_project.Companion.IoDriver.{AtsMode, OutputState}
use complete_gen_project.Companion.Adam.Debounce.{Debouncer, new_debouncer}

-- What the client answers. `raised` is a timeout or a ModbusException, with whether the module had
-- already acted; a reply of bits has at least the six that are asked for, one of registers at least one.
pub data Answer : Type 0 where
  accepted : Answer
  error_reply : Answer
  raised : Bool → Answer
  bits : Bool → Bool → Bool → Bool → Bool → Bool → Answer
  registers : ℕ → List ℕ → Answer

pub record HwWatchdogConfig : Type 0 where
  pub enable_register : Option ℕ
  pub enable_expected : ℕ
  pub timeout_register : Option ℕ
  pub timeout_scale_ms : ℕ
  pub timeout_min_ms : ℕ
  pub timeout_max_ms : ℕ
  pub safety_value_register_base : Option ℕ
  pub safety_value_count : ℕ

abbrev pub is_some : Option ℕ → Bool
is_some none = false
is_some (some n) = true

unfoldable pub is_configured : HwWatchdogConfig → Bool
is_configured c =
    is_some c.enable_register
    && (is_some c.timeout_register && is_some c.safety_value_register_base)

-- The task that releases a pulsed relay: `waiting` sleeps until the pulse ends, `retrying` until the
-- next attempt; a task that is done or cancelled is `idle`.
pub data Task : Type 0 where
  idle : Task
  waiting retrying : ℕ → Task

-- The entry of `_commanded_do` for one output: the value, and when it was commanded.
abbrev pub Commanded : Type 0
Commanded = Option (Bool × ℕ)

pub record Adam : Type 0 where
  -- `_client` with its `connected`, and `_connected`
  pub client : Option Bool
  pub connected : Bool
  pub require_hw_watchdog : Bool
  pub hw_config : Option HwWatchdogConfig
  pub hw_ok : Bool
  pub hw_checked : Bool
  pub assumed_mode : AtsMode
  pub test_task : Task
  pub bypass_task : Task
  pub load_disconnect_seen : Option ℕ
  pub debounce : Debouncer
  pub test_commanded : Commanded
  pub force_commanded : Commanded
  pub inhibit_commanded : Commanded
  pub bypass_commanded : Commanded
  -- the command relays of the module, and the answers to come
  pub relays : OutputState
  pub answers : List Answer

unfoldable pub new_adam :
    ℕ → AtsMode → Bool → Option HwWatchdogConfig → OutputState → List Answer → Adam
new_adam samples mode require config relays answers = record {
  client = none;
  connected = false;
  require_hw_watchdog = require;
  hw_config = config;
  hw_ok = not require;
  hw_checked = false;
  assumed_mode = mode;
  test_task = idle;
  bypass_task = idle;
  load_disconnect_seen = none;
  debounce = new_debouncer samples;
  test_commanded = none;
  force_commanded = none;
  inhibit_commanded = none;
  bypass_commanded = none;
  relays = relays;
  answers = answers;
}

-- An action of the driver: the state that it leaves, and `none` where it raises.
abbrev pub Action : Type 0 → Type 0
Action A = Adam → Option A × Adam

module _ {A B : Type 0} where
  infixl 5 ◌>>=◌ ◌>>◌
  abbrev pub continue : Option A → (A → Action B) → Action B
  continue none f a = (none, a)
  continue (some x) f a = f x a

  unfoldable pub ◌>>=◌ : Action A → (A → Action B) → Action B
  ◌>>=◌ m f a = let (r, a') = m a in continue r f a'

  abbrev pub ◌>>◌ : Action A → Action B → Action B
  m >> k = m >>= λ _. k

abbrev pub pure : {A : Type 0} → A → Action A
pure x a = (some x, a)

abbrev pub raise : {A : Type 0} → Action A
raise a = (none, a)

-- The next answer; a wire that has no more to say times out.
abbrev pub first_answer : List Answer → Answer
first_answer [] = raised false
first_answer (x ∷ xs) = x

abbrev pub rest_answers : List Answer → List Answer
rest_answers [] = []
rest_answers (x ∷ xs) = xs

unfoldable pub ask : Adam → Answer × Adam
ask a = (first_answer a.answers, record a { answers = rest_answers a.answers })

-- `_read_holding_registers`, straight on the client; `none` is an OSError.
abbrev pub words_of : ℕ → Answer → Option (List ℕ)
words_of count (registers w ws) = some (take count (w ∷ ws))
words_of count _ = none

unfoldable pub read_holding_registers : ℕ → Action (List ℕ)
read_holding_registers count a = elim a.client [
  | none ↦ (none, a)
  | some _ ↦ let (answer, a') = ask a in (words_of count answer, a')
]

abbrev pub word_of : List ℕ → ℕ
word_of [] = 0
word_of (w ∷ ws) = w

unfoldable pub all_zero : List ℕ → Bool
all_zero [] = true
all_zero (w ∷ ws) = w == 0 && all_zero ws

-- The checks of `_verify_hw_watchdog` on what was read back.
unfoldable pub is_armed : HwWatchdogConfig → ℕ → ℕ → List ℕ → Bool
is_armed c enable_raw timeout_raw safety_raw =
    let timeout = timeout_raw * c.timeout_scale_ms in
    enable_raw == c.enable_expected
    && ((leb c.timeout_min_ms timeout && leb timeout c.timeout_max_ms) && all_zero safety_raw)

unfoldable pub read_back : HwWatchdogConfig → Action Bool
read_back c = do
  enable ← read_holding_registers 1
  timeout ← read_holding_registers 1
  safety ← read_holding_registers c.safety_value_count
  pure (is_armed c (word_of enable) (word_of timeout) safety)

abbrev pub set_hw_watchdog_status : Bool → Adam → Adam
set_hw_watchdog_status ok a = record a { hw_ok = ok; hw_checked = true }

abbrev pub is_true : Option Bool → Bool
is_true none = false
is_true (some b) = b

unfoldable pub verify_config : Option HwWatchdogConfig → Adam → Adam
verify_config none a = set_hw_watchdog_status false a
verify_config (some c) a =
    if is_configured c
    then (let (verdict, a') = read_back c a in set_hw_watchdog_status (is_true verdict) a')
    else set_hw_watchdog_status false a

unfoldable pub verify_hw_watchdog : Adam → Adam
verify_hw_watchdog a =
    if a.require_hw_watchdog then verify_config a.hw_config a else set_hw_watchdog_status true a

abbrev pub is_accepted : Answer → Bool
is_accepted accepted = true
is_accepted _ = false

unfoldable pub connect : Adam → Bool × Adam
connect a =
    let (answer, a') = ask a in
    let ok = is_accepted answer in
    let opened = record a' { client = some ok; connected = ok } in
    (ok, if ok then verify_hw_watchdog opened else opened)

-- `close`: the pulse timers are cancelled.
unfoldable pub close : Adam → Adam
close a = record a { test_task = idle; bypass_task = idle; client = none; connected = false }

unfoldable pub ensure_connected : Action (Unit {0})
ensure_connected a =
    if a.connected && is_true a.client
    then (some tt, a)
    else let (ok, a') = connect a in if ok then (some tt, a') else (none, a')

-- The socket drops, which the client notices.
unfoldable pub lose_link : Adam → Adam
lose_link a = record a { client = some false }
