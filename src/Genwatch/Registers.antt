-- ===== src/Genwatch/Registers.antt =====
-- The register map (GenWatch-main/backend/genwatch/modbus/registers.py): decoding of words, the grouping
-- of reads, and the rules on the status bits. A register's name is a value of any type; the factor of a
-- scaled register is a float and stays outside: a scaled value is the integer that it multiplies.
pub mod Decode
pub mod Rules
pub mod Batches
use complete_gen_project.Base.{
  ℕ, zero, suc, ◌+◌, ◌-◌, ◌*◌, Bool, true, false, not, ◌&&◌, Option, none, some, List, [], ◌∷◌, ltb,
  leb, ◌==◌, if◌then◌else◌, bit_and, bit_or, max, ℤ, pos, minus, keep,
}

pub data RegType : Type 0 where
  u16 s16 u32 u32_lo s32 bitfld enum : RegType

abbrev pub is_double : RegType → Bool
is_double u32 = true
is_double u32_lo = true
is_double s32 = true
is_double _ = false

abbrev pub is_unscaled : RegType → Bool
is_unscaled bitfld = true
is_unscaled enum = true
is_unscaled _ = false

-- The fields that decoding and polling read; `has_scale` is `scale != 1.0`.
pub record RegisterDef : Type 0 where
  pub addr : ℕ
  pub type : RegType
  pub has_scale : Bool

-- `words`
abbrev pub words_of : RegisterDef → ℕ
words_of r = if is_double r.type then 2 else 1

-- An integer, or the integer that the scale multiplies.
pub data Value : Type 0 where
  whole scaled : ℤ → Value

abbrev pub low_sixteen : ℕ → ℕ
low_sixteen w = bit_and w 0xFFFF

-- `(hi << 16) | lo`
unfoldable pub join_words : ℕ → ℕ → ℕ
join_words w0 w1 = bit_or (low_sixteen w0 * 65536) (low_sixteen w1)

unfoldable pub signed_word : ℕ → ℤ
signed_word w =
    let v = low_sixteen w in if not (bit_and v 0x8000 == 0) then minus v 0x10000 else pos v

unfoldable pub signed_double : ℕ → ℤ
signed_double u = if ltb u 0x80000000 then pos u else minus u 0x100000000

-- The types that take two words, given the second if there is one.
unfoldable pub decode_double : RegType → ℕ → List ℕ → Option ℤ
decode_double t w0 [] = none
decode_double u32_lo w0 (w1 ∷ ws) = some (pos (low_sixteen w1))
decode_double s32 w0 (w1 ∷ ws) = some (signed_double (join_words w0 w1))
decode_double _ w0 (w1 ∷ ws) = some (pos (join_words w0 w1))

unfoldable pub decode_int : RegType → List ℕ → Option ℤ
decode_int t [] = none
decode_int s16 (w ∷ ws) = some (signed_word w)
decode_int t (w ∷ ws) = if is_double t then decode_double t w ws else some (pos (low_sixteen w))

abbrev pub apply_scale : RegisterDef → Option ℤ → Option Value
apply_scale r none = none
apply_scale r (some v) =
    some (if r.has_scale && not (is_unscaled r.type) then scaled v else whole v)

unfoldable pub decode_value : RegisterDef → List ℕ → Option Value
decode_value r words = apply_scale r (decode_int r.type words)

-- `sorted(regs, key=lambda r: r.addr)`, which keeps the order of equal addresses.
abbrev pub insert_reg : RegisterDef → List RegisterDef → List RegisterDef
insert_reg r [] = r ∷ []
insert_reg r (x ∷ xs) =
    let rest = insert_reg r xs in if leb r.addr x.addr then r ∷ x ∷ xs else x ∷ rest

abbrev pub sort_regs : List RegisterDef → List RegisterDef
sort_regs [] = []
sort_regs (r ∷ rs) = insert_reg r (sort_regs rs)

abbrev pub gap_tolerance : ℕ
gap_tolerance = 4

-- A register joins the open batch: it is near enough, and the batch stays small enough.
abbrev pub joins : ℕ → ℕ → ℕ → RegisterDef → Bool
joins max_words start fin r =
    leb r.addr (fin + gap_tolerance) && leb (max fin (r.addr + words_of r) - start) max_words

-- The loop of `batch_reads`, `fin` being `end`.
unfoldable pub batch_loop : ℕ → ℕ → ℕ → List RegisterDef → List (ℕ × ℕ)
batch_loop max_words start fin [] = (start, fin - start) ∷ []
batch_loop max_words start fin (r ∷ rs) = elim (joins max_words start fin r) [
  | true ↦ batch_loop max_words start (max fin (r.addr + words_of r)) rs
  | false ↦ (start, fin - start) ∷ batch_loop max_words r.addr (r.addr + words_of r) rs
]

abbrev pub start_batches : ℕ → List RegisterDef → List (ℕ × ℕ)
start_batches max_words [] = []
start_batches max_words (r ∷ rs) = batch_loop max_words r.addr (r.addr + words_of r) rs

unfoldable pub batch_reads : List RegisterDef → ℕ → List (ℕ × ℕ)
batch_reads regs max_words = start_batches max_words (sort_regs regs)

-- A rule on the bits of a register: `StateBitRule`, `PanelModeRule` and `AlarmBit` differ in what they
-- say, `S`; `N` is the type of the names.
pub record BitRule (N S : Type 0) : Type 0 where
  pub register : N
  pub mask : ℕ
  pub says : S

abbrev has_all : ℕ → Option ℕ → Bool
has_all mask none = false
has_all mask (some raw) = bit_and raw mask == mask

abbrev has_any : ℕ → Option ℕ → Bool
has_any mask none = false
has_any mask (some raw) = not (bit_and raw mask == 0)

module _ {N S : Type 0} (values : N → Option ℕ) where
  -- Every bit of the mask is set in the register, which has been polled.
  unfoldable pub is_set : BitRule N S → Bool
  is_set rule = has_all rule.mask (values rule.register)

  -- Some bit of the mask is.
  unfoldable pub is_active : BitRule N S → Bool
  is_active rule = has_any rule.mask (values rule.register)

  -- The loop of `derive_engine_state` and of `derive_panel_mode`.
  unfoldable pub first_set : S → List (BitRule N S) → S
  first_set unknown [] = unknown
  first_set unknown (rule ∷ rules) =
      let rest = first_set unknown rules in if is_set rule then rule.says else rest

  unfoldable pub derive_active_alarms : List (BitRule N S) → List (BitRule N S)
  derive_active_alarms rules = keep is_active rules
