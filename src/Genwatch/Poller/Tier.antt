-- ===== src/Genwatch/Poller/Tier.antt =====
-- A poll of one tier (`_poll_tier` and `_fallback_singles` of
-- GenWatch-main/backend/genwatch/modbus/poller.py), over the batches that `batch_reads` computed. The
-- client takes the next of the answers that its reads will give. Registers are named by numbers, times
-- are `time.monotonic()` in milliseconds; the wall clock of a reading and the callback are left out.
use complete_gen_project.Base.{
  ℕ, zero, suc, ◌+◌, ◌-◌, ◌*◌, Bool, true, false, ◌&&◌, ◌||◌, Option, none, some, List, [], ◌∷◌,
  leb, ◌==◌, if◌then◌else◌, length, take,
}
use complete_gen_project.Base.Dicts.{Dict, lookup, insert, remove}
use complete_gen_project.Genwatch.Alarms.{is_member}
use complete_gen_project.Genwatch.Registers.{RegisterDef, words_of, Value, decode_value}
use complete_gen_project.Genwatch.Poller.Health.{CommsHealth, record_sample}

pub record TierRegister : Type 0 where
  pub name : ℕ
  pub reg : RegisterDef

-- The words of a read, or none where it failed.
abbrev pub Answer : Type 0
Answer = Option (List ℕ)

abbrev pub next_answer : List Answer → Answer × List Answer
next_answer [] = (none, [])
next_answer (a ∷ as_rest) = (a, as_rest)

-- What was read of a batch: its start, its words, and the offsets that were not read.
pub record BatchResult : Type 0 where
  pub start : ℕ
  pub words : List ℕ
  pub failed : List ℕ

-- A single read in the fan-out: a reply without words fails.
abbrev pub single_word : Answer → Option ℕ
single_word none = none
single_word (some []) = none
single_word (some (w ∷ ws)) = some w

-- What the fan-out has so far.
pub record FanOut : Type 0 where
  pub words : List ℕ
  pub failed : List ℕ
  pub any_ok : Bool
  pub answers : List Answer

abbrev pub add_single : ℕ → Option ℕ → FanOut → FanOut
add_single offset none f = record f { words = 0 ∷ f.words; failed = offset ∷ f.failed }
add_single offset (some w) f = record f { words = w ∷ f.words; any_ok = true }

-- The loop of `_fallback_singles` over the offsets from `offset`, with `count` of them left.
unfoldable pub fallback_loop : ℕ → ℕ → List Answer → FanOut
fallback_loop zero offset answers = record {
  words = [];
  failed = [];
  any_ok = false;
  answers = answers;
}
fallback_loop (suc count) offset answers =
    let (a, rest) = next_answer answers in
    add_single offset (single_word a) (fallback_loop count (offset + 1) rest)

abbrev pub fan_out_result : ℕ → FanOut → Option BatchResult
fan_out_result start f =
    if f.any_ok then some (record { start = start; words = f.words; failed = f.failed }) else none

unfoldable pub fallback_singles : ℕ → ℕ → List Answer → Option BatchResult × List Answer
unfolding fallback_loop
fallback_singles start count answers =
    let f = fallback_loop count 0 answers in (fan_out_result start f, f.answers)

-- A batch: the read, and the fan-out where it fails.
unfoldable pub read_batch : ℕ → ℕ → List Answer → Option BatchResult × List Answer
unfolding fallback_singles
read_batch start count answers =
    let (a, rest) = next_answer answers in
    elim a [
      | none ↦ fallback_singles start count rest
      | some words ↦ (some (record { start = start; words = words; failed = [] }), rest)
    ]

abbrev pub is_read : Option BatchResult → Bool
is_read none = false
is_read (some b) = true

abbrev pub add_result : Option BatchResult → List BatchResult → List BatchResult
add_result none bs = bs
add_result (some b) bs = b ∷ bs

pub record BatchRun : Type 0 where
  pub results : List BatchResult
  pub health : CommsHealth
  pub answers : List Answer

-- The loop over the batches: one sample of health for each.
unfoldable pub read_batches : ℕ → List (ℕ × ℕ) → List Answer → CommsHealth → BatchRun
unfolding read_batch record_sample
read_batches now [] answers h = record { results = []; health = h; answers = answers }
read_batches now ((start, count) ∷ bs) answers h =
    let (r, rest) = read_batch start count answers in
    let run = read_batches now bs rest (record_sample (is_read r) now h) in
    record run { results = add_result r run.results }

-- The batch has all the words of the register.
abbrev pub covers : RegisterDef → BatchResult → Bool
covers r b = leb b.start r.addr && leb (r.addr + words_of r) (b.start + length b.words)

-- Some word from `offset` on was not read.
abbrev pub any_failed : ℕ → ℕ → List ℕ → Bool
any_failed zero offset failed = false
any_failed (suc k) offset failed = is_member offset failed || any_failed k (offset + 1) failed

abbrev pub drop : ℕ → List ℕ → List ℕ
drop zero ws = ws
drop (suc n) [] = []
drop (suc n) (w ∷ ws) = drop n ws

unfoldable pub decode_from : RegisterDef → BatchResult → Option Value
decode_from r b =
    let offset = r.addr - b.start in
    if any_failed (words_of r) offset b.failed
    then none
    else decode_value r (take (words_of r) (drop offset b.words))

-- The first batch that covers the register decides.
unfoldable pub decode_register : RegisterDef → List BatchResult → Option Value
unfolding decode_from
decode_register r [] = none
decode_register r (b ∷ bs) =
    let rest = decode_register r bs in if covers r b then decode_from r b else rest

pub record Reading : Type 0 where
  pub values : Dict Value
  pub value_ages : Dict ℕ

abbrev pub store_value : ℕ → ℕ → Option Value → Reading → Reading
store_value name now none d = d
store_value name now (some v) d = record {
  values = insert name v d.values;
  value_ages = insert name now d.value_ages;
}

unfoldable pub decode_tier : ℕ → List BatchResult → List TierRegister → Reading → Reading
unfolding decode_register
decode_tier now results [] d = d
decode_tier now results (r ∷ rs) d =
    decode_tier now results rs (store_value r.name now (decode_register r.reg results) d)

abbrev pub is_too_old : ℕ → ℕ → Option ℕ → Bool
is_too_old now threshold none = false
is_too_old now threshold (some age) = leb threshold (now - age)

unfoldable pub evict_register : ℕ → ℕ → ℕ → Reading → Reading
evict_register now threshold name d =
    if is_too_old now threshold (lookup name d.value_ages)
    then (record { values = remove name d.values; value_ages = remove name d.value_ages })
    else d

unfoldable pub evict_tier : ℕ → ℕ → List TierRegister → Reading → Reading
unfolding evict_register
evict_tier now threshold [] d = d
evict_tier now threshold (r ∷ rs) d =
    evict_tier now threshold rs (evict_register now threshold r.name d)

abbrev pub is_stamp : ℕ → Option ℕ → Bool
is_stamp now none = false
is_stamp now (some age) = age == now

-- Every register of the rules on the engine state was decoded in this round.
abbrev pub all_decoded_now : ℕ → List ℕ → Dict ℕ → Bool
all_decoded_now now [] ages = true
all_decoded_now now (n ∷ ns) ages = is_stamp now (lookup n ages) && all_decoded_now now ns ages

abbrev pub is_nonempty : {A : Type 0} → List A → Bool
is_nonempty [] = false
is_nonempty _ = true

-- What a poll of a tier takes from the register map.
pub record TierMap : Type 0 where
  pub registers : List TierRegister
  pub is_prime : Bool
  pub cadence_ms : ℕ
  pub state_registers : List ℕ

abbrev pub tier_stale_multiplier : ℕ
tier_stale_multiplier = 3

unfoldable pub heartbeat : TierMap → ℕ → Bool → Dict ℕ → CommsHealth → CommsHealth
heartbeat m now any_batch_ok ages h =
    let fresh =
      if is_nonempty m.state_registers
      then all_decoded_now now m.state_registers ages
      else any_batch_ok in
    if m.is_prime && fresh then (record h { last_prime_good = some now }) else h

pub record PollResult : Type 0 where
  pub reading : Reading
  pub health : CommsHealth
  pub answers : List Answer

-- `_poll_tier`; with no batches it does nothing.
unfoldable pub poll_tier :
    TierMap → List (ℕ × ℕ) → ℕ → List Answer → CommsHealth → Reading → PollResult
unfolding read_batches decode_tier evict_tier heartbeat
poll_tier m [] now answers h d = record { reading = d; health = h; answers = answers }
poll_tier m (b ∷ bs) now answers h d =
    let run = read_batches now (b ∷ bs) answers h in
    let decoded = decode_tier now run.results m.registers d in
    let kept = evict_tier now (m.cadence_ms * tier_stale_multiplier) m.registers decoded in
    record {
      reading = kept;
      health = heartbeat m now (is_nonempty run.results) kept.value_ages run.health;
      answers = run.answers;
    }
