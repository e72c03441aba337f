-- ===== src/Companion/Store/Registers.antt =====
-- What the Modbus registers show (`read_register` of ats-pi-companion-main/src/atspi/state.py).
use complete_gen_project.Base.{
  ℕ, ◌+◌, ◌-◌, ◌*◌, ◌/◌, ◌%◌, ◌^◌, ◌<◌, ◌≡◌, Bool, false, ◌||◌, ◌&&◌, arith, bit_and-word, leb,
}
use complete_gen_project.Companion.Store.Model.{StateSnapshot, RegisterStore}
use complete_gen_project.Companion.Store.Modbus.{
  read_register, core_register, pair_at, wide_register, identity_register, read_back_register,
  high_word, low_word,
}
use complete_gen_project.Companion.Store.Faults.{fault_summary-lt}

-- The u32 fields of the register map, with the address of the high word.
pub data WideField : Type 0 where
  last_transfer_ts last_retransfer_ts uptime_s wallclock lifetime_count count_24h : WideField

abbrev pub base_addr : WideField → ℕ
base_addr last_transfer_ts = 0x0010
base_addr last_retransfer_ts = 0x0012
base_addr uptime_s = 0x0014
base_addr wallclock = 0x0016
base_addr lifetime_count = 0x0020
base_addr count_24h = 0x0022

-- The number that a field stands for, at the given times.
abbrev pub field_value : ℕ → ℕ → RegisterStore → WideField → ℕ
field_value now_mono now_wall s last_transfer_ts = s.snap.last_transfer_to_gen_ts
field_value now_mono now_wall s last_retransfer_ts = s.snap.last_retransfer_to_util_ts
field_value now_mono now_wall s uptime_s = (now_mono - s.boot_mono) / 1000
field_value now_mono now_wall s wallclock = now_wall
field_value now_mono now_wall s lifetime_count = s.snap.transfer_count_lifetime
field_value now_mono now_wall s count_24h = s.snap.transfer_count_24h

words_lem : (v : ℕ) → high_word v * 65536 + low_word v ≡ v % 2 ^ 32
words_lem v = rw (bit_and-word, bit_and-word) (omega arith)

-- The two words of a u32 field, read at one pair of times, are the value modulo 2 ^ 32.
pub read_register-wide :
    (now_mono now_wall : ℕ) (s : RegisterStore) (f : WideField)
    → read_register now_mono now_wall s (base_addr f) * 65536
        + read_register now_mono now_wall s (base_addr f + 1)
      ≡ field_value now_mono now_wall s f % 2 ^ 32
unfolding read_register
read_register-wide now_mono now_wall s last_transfer_ts = words_lem s.snap.last_transfer_to_gen_ts
read_register-wide now_mono now_wall s last_retransfer_ts =
    words_lem s.snap.last_retransfer_to_util_ts
read_register-wide now_mono now_wall s uptime_s = words_lem ((now_mono - s.boot_mono) / 1000)
read_register-wide now_mono now_wall s wallclock = words_lem now_wall
read_register-wide now_mono now_wall s lifetime_count = words_lem s.snap.transfer_count_lifetime
read_register-wide now_mono now_wall s count_24h = words_lem s.snap.transfer_count_24h

-- The identification registers that are served unmasked fit a word.
pub record IsIdentified (s : RegisterStore) : Type 0 where
  pub unit : s.unit_id < 65536
  pub icd : (s.icd_major < 65536) × (s.icd_minor < 65536)
  pub fw :
      (s.fw_version.major < 65536) × (s.fw_version.minor < 65536) × (s.fw_version.patch < 65536)

core_register-lt :
    (v : StateSnapshot) (addr rest : ℕ) → rest < 65536 → core_register v addr rest < 65536
unfolding core_register
core_register-lt v addr rest h = ground (arith, fault_summary-lt v)

pair_at-lt : (base v addr rest : ℕ) → rest < 65536 → pair_at base v addr rest < 65536
pair_at-lt base v addr rest h = ground (arith, bit_and-word v, bit_and-word (v / 2 ^ 16))

wide_register-lt :
    (v : StateSnapshot) (up now_wall addr rest : ℕ)
    → rest < 65536
    → wide_register v up now_wall addr rest < 65536
unfolding wide_register
wide_register-lt v up now_wall addr rest h = pair_at-lt 0x0010 v.last_transfer_to_gen_ts addr _ (
    pair_at-lt 0x0012 v.last_retransfer_to_util_ts addr _ (
      pair_at-lt 0x0014 up addr _ (
        pair_at-lt 0x0016 now_wall addr _ (
          pair_at-lt 0x0020 v.transfer_count_lifetime addr _
            (pair_at-lt 0x0022 v.transfer_count_24h addr rest h)))))

identity_register-lt :
    (s : RegisterStore) (addr rest : ℕ)
    → IsIdentified s
    → rest < 65536
    → identity_register s addr rest < 65536
unfolding identity_register
identity_register-lt s addr rest i h = ground arith

read_back_register-lt : (v : StateSnapshot) (addr : ℕ) → read_back_register v addr < 65536
unfolding read_back_register
read_back_register-lt v addr = ground arith

-- Every register, mapped or reserved, at every time, holds a 16-bit value.
pub read_register-lt :
    (now_mono now_wall : ℕ) (s : RegisterStore) (addr : ℕ)
    → IsIdentified s
    → read_register now_mono now_wall s addr < 65536
unfolding read_register
read_register-lt now_mono now_wall s addr i = core_register-lt s.snap addr _ (
    wide_register-lt s.snap _ now_wall addr _
      (identity_register-lt s addr _ i (read_back_register-lt s.snap addr)))

-- The addresses of the register map that are read: ICD section 5.
abbrev is_mapped : ℕ → Bool
is_mapped addr =
    leb addr 0x0005
    || (leb 0x0010 addr && leb addr 0x0017)
    || (leb 0x0020 addr && leb addr 0x0023)
    || (leb 0x0030 addr && leb addr 0x0035)
    || (leb 0x0040 addr && leb addr 0x0043)

-- Every other address, the command registers included, reads as 0.
pub read_register-reserved :
    (now_mono now_wall : ℕ) (s : RegisterStore) (addr : ℕ)
    → is_mapped addr ≡ false
    → read_register now_mono now_wall s addr ≡ 0
unfolding read_register
read_register-reserved now_mono now_wall s addr h = ground arith
