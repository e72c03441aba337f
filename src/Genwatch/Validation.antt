-- ===== src/Genwatch/Validation.antt =====
-- The report on a register map (`validate_register_map` of
-- GenWatch-main/backend/genwatch/modbus/registers.py). Names are not empty and stand as numbers; addresses and
-- masks are not negative. The text of an error is a kind of error, and the warnings are left out.
pub mod Words
pub mod Sound
pub mod Report
pub mod Complete
use complete_gen_project.Base.{
  ℕ, zero, suc, ◌+◌, Bool, true, false, not, ◌&&◌, ◌||◌, Option, none, some, List, [], ◌∷◌, ◌++◌,
  ltb, leb, ◌==◌, if◌then◌else◌, length,
}
use complete_gen_project.Genwatch.Registers.{RegisterDef, words_of}

-- A register of the map with the fields that only the report reads; whether its tier is a known one.
pub record MapRegister : Type 0 where
  pub name : ℕ
  pub fc : ℕ
  pub has_tier : Bool
  pub reg : RegisterDef

-- A rule of `alarm_bits` or `panel_mode_bits`; for one of `engine_state_bits` the mask is not checked.
pub record MapRule : Type 0 where
  pub register : ℕ
  pub mask : ℕ

pub record ControlDef : Type 0 where
  pub name : ℕ
  pub addr : ℕ
  pub fc : ℕ
  pub value : ℕ
  pub values : List ℕ

abbrev pub values_or : List ℕ → ℕ → List ℕ
values_or [] v = v ∷ []
values_or ws v = ws

-- The words that go on the wire.
abbrev pub write_values : ControlDef → List ℕ
write_values c = values_or c.values c.value

pub record RegisterMap : Type 0 where
  pub slave : ℕ
  pub read_fc : ℕ
  pub registers : List MapRegister
  pub engine_state_bits : List MapRule
  pub alarm_bits : List MapRule
  pub panel_mode_bits : List MapRule
  pub controls : List ControlDef

pub data MapError : Type 0 where
  bad_slave bad_read_fc no_registers : MapError
  duplicate_register bad_register_fc bad_tier register_out_of_range : ℕ → MapError
  word_overlap : ℕ → ℕ → ℕ → MapError
  unknown_register bad_mask : ℕ → MapError
  duplicate_control bad_control_fc control_out_of_range wrong_value_count : ℕ → MapError

-- An error where the test fails.
abbrev pub unless : Bool → MapError → List MapError
unless true e = []
unless false e = e ∷ []

abbrev pub contains : ℕ → List ℕ → Bool
contains n [] = false
contains n (m ∷ ms) = m == n || contains n ms

-- `occupied_words`
abbrev pub Occupied : Type 0
Occupied = ℕ → Option ℕ

abbrev pub occupy : ℕ → ℕ → Occupied → Occupied
occupy w n occ v = if v == w then some n else occ v

abbrev pub word_error : ℕ → ℕ → Option ℕ → List MapError
word_error n w none = []
word_error n w (some prior) = unless (prior == n) (word_overlap w prior n)

-- The loop over the words of a register.
unfoldable pub check_words : ℕ → ℕ → ℕ → Occupied → List MapError × Occupied
check_words zero w n occ = ([], occ)
check_words (suc count) w n occ =
    let (errors, occ') = check_words count (w + 1) n (occupy w n occ) in
    (word_error n w (occ w) ++ errors, occ')

abbrev pub is_read_fc : ℕ → Bool
is_read_fc fc = fc == 3 || fc == 4

-- The tests on one register, given the names before it.
abbrev pub register_errors : List ℕ → MapRegister → List MapError
register_errors names r =
    unless (not (contains r.name names)) (duplicate_register r.name)
    ++ unless (is_read_fc r.fc) (bad_register_fc r.name)
    ++ unless r.has_tier (bad_tier r.name)
    ++ unless (leb r.reg.addr 0xFFFF) (register_out_of_range r.name)

-- The loop over the registers: the errors, the names and the words at its end.
unfoldable pub check_registers :
    List MapRegister → List ℕ → Occupied → List MapError × List ℕ × Occupied
check_registers [] names occ = ([], names, occ)
check_registers (r ∷ rs) names occ =
    let (overlaps, occ') = check_words (words_of r.reg) r.reg.addr r.name occ in
    let (errors, names', occ'') = check_registers rs (r.name ∷ names) occ' in
    ((register_errors names r ++ overlaps) ++ errors, names', occ'')

abbrev pub is_mask : ℕ → Bool
is_mask mask = ltb 0 mask && leb mask 0xFFFF

unfoldable pub check_references : List ℕ → List MapRule → List MapError
check_references names [] = []
check_references names (rule ∷ rules) =
    unless (contains rule.register names) (unknown_register rule.register)
    ++ check_references names rules

unfoldable pub check_masked : List ℕ → List MapRule → List MapError
check_masked names [] = []
check_masked names (rule ∷ rules) =
    (unless (contains rule.register names) (unknown_register rule.register)
      ++ unless (is_mask rule.mask) (bad_mask rule.register))
    ++ check_masked names rules

abbrev pub is_write_fc : ℕ → Bool
is_write_fc fc = fc == 6 || fc == 16

unfoldable pub check_controls : List ℕ → List ControlDef → List ℕ → List MapError
check_controls names [] seen = []
check_controls names (c ∷ cs) seen =
    (unless (not (contains c.name seen || contains c.name names)) (duplicate_control c.name)
      ++ unless (is_write_fc c.fc) (bad_control_fc c.name)
      ++ unless (leb c.addr 0xFFFF) (control_out_of_range c.name)
      ++ unless (not (c.fc == 6) || length (write_values c) == 1) (wrong_value_count c.name))
    ++ check_controls names cs (c.name ∷ seen)

abbrev pub is_empty : List MapRegister → Bool
is_empty [] = true
is_empty _ = false

-- The errors of the report.
unfoldable pub validate_register_map : RegisterMap → List MapError
validate_register_map rm =
    let (errors, names, _) = check_registers rm.registers [] (λ _. none) in
    unless (leb 1 rm.slave && leb rm.slave 247) bad_slave
    ++ unless (is_read_fc rm.read_fc) bad_read_fc
    ++ errors
    ++ check_references names rm.engine_state_bits
    ++ check_masked names rm.alarm_bits
    ++ check_masked names rm.panel_mode_bits
    ++ check_controls names rm.controls []
    ++ unless (not (is_empty rm.registers)) no_registers
