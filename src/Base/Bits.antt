-- ===== src/Base/Bits.antt =====
-- Python's `&`, `|` and `& ~` on numbers that are not negative, read as arithmetic.
use Prim.Native.Nat.{
  ℕ, zero, suc, ◌+◌, ◌-◌, ◌*◌, ◌/◌, ◌%◌, ◌≤◌, ◌<◌, min, max, bit_and, bit_or, digits, bitwise,
  bit_and-bitwise, bit_or-bitwise,
}
use mathlib.Core.Path.{◌≡◌, refl, sym, ap, ◌∙◌}
use native.Mathlib.Omega.{arith}

-- `x & ~m`: the complement in Python has no width, so the bits above those of `m` stay.
abbrev pub and_not : ℕ → ℕ → ℕ
and_not x m = x - bit_and x m

-- The native operations run on binary digits, with fuel: `z` where the first number ends, `f` on a digit.
module _ (z : ℕ → ℕ) (f : ℕ → ℕ → ℕ) where
  digits_end : (n b : ℕ) → digits z f n 0 b ≡ z b
  digits_end zero b = refl
  digits_end (suc n) b = refl

  -- Any fuel that covers the first number gives the same.
  enough : (fuel spare x y : ℕ) → x ≤ fuel → x ≤ spare → digits z f fuel x y ≡ digits z f spare x y
  enough fuel spare zero y p q = digits_end fuel y ∙ sym (digits_end spare y)
  enough zero spare (suc x) y p q = absurd (omega arith)
  enough (suc fuel) zero (suc x) y p q = absurd (omega arith)
  enough (suc fuel) (suc spare) (suc x) y p q =
      ap (λ (high : ℕ). high * 2 + f (suc x % 2) (y % 2))
        (enough fuel spare (suc x / 2) (y / 2) (omega arith) (omega arith))

  bitwise_lowest :
      (x y : ℕ)
      → bitwise z f (suc x) y ≡ bitwise z f (suc x / 2) (y / 2) * 2 + f (suc x % 2) (y % 2)
  bitwise_lowest x y =
      ap (λ (high : ℕ). high * 2 + f (suc x % 2) (y % 2))
        (enough x (suc x / 2) (suc x / 2) (y / 2) (omega arith) (omega arith))

-- Both operations, split into the lowest digit and the rest.
bit_and_step : (a b : ℕ) → bit_and a b ≡ bit_and (a / 2) (b / 2) * 2 + min (a % 2) (b % 2)
bit_and_step zero b = omega (arith, bit_and-bitwise 0 b, bit_and-bitwise 0 (b / 2))
bit_and_step (suc a) b =
    bit_and-bitwise (suc a) b
    ∙ bitwise_lowest (λ _. 0) min a b
    ∙ ap (λ (high : ℕ). high * 2 + min (suc a % 2) (b % 2))
        (sym (bit_and-bitwise (suc a / 2) (b / 2)))

zero-bit_or : (b : ℕ) → bit_or 0 b ≡ b
zero-bit_or b = bit_or-bitwise 0 b

bit_or_step : (a b : ℕ) → bit_or a b ≡ bit_or (a / 2) (b / 2) * 2 + max (a % 2) (b % 2)
bit_or_step zero b = omega (arith, zero-bit_or b, zero-bit_or (b / 2))
bit_or_step (suc a) b =
    bit_or-bitwise (suc a) b
    ∙ bitwise_lowest (λ y. y) max a b
    ∙ ap (λ (high : ℕ). high * 2 + max (suc a % 2) (b % 2))
        (sym (bit_or-bitwise (suc a / 2) (b / 2)))

and_nothing : (n a : ℕ) → digits (λ _. 0) min n a 0 ≡ 0
and_nothing zero a = refl
and_nothing (suc n) zero = refl
and_nothing (suc n) (suc a) = omega (arith, and_nothing n (suc a / 2))

bit_and-zero : (a : ℕ) → bit_and a 0 ≡ 0
bit_and-zero a = bit_and-bitwise a 0 ∙ and_nothing a a

or_nothing : (n a : ℕ) → a ≤ n → digits (λ y. y) max n a 0 ≡ a
or_nothing zero zero h = refl
or_nothing zero (suc a) h = absurd (omega arith)
or_nothing (suc n) zero h = refl
or_nothing (suc n) (suc a) h = omega (arith, or_nothing n (suc a / 2) (omega arith))

bit_or-zero : (a : ℕ) → bit_or a 0 ≡ a
bit_or-zero a = bit_or-bitwise a 0 ∙ or_nothing a a (omega arith)

-- A mask of ones is a remainder: the low word of a number.
pub bit_and-one : (a : ℕ) → bit_and a 1 ≡ a % 2
bit_and-one a = omega (arith, bit_and_step a 1, bit_and-zero (a / 2))

pub bit_and-two : (a : ℕ) → bit_and a 2 ≡ a / 2 % 2 * 2
bit_and-two a = omega (arith, bit_and_step a 2, bit_and-one (a / 2))

pub bit_and-three : (a : ℕ) → bit_and a 3 ≡ a % 4
bit_and-three a = omega (arith, bit_and_step a 3, bit_and-one (a / 2))

bit_and-seven : (a : ℕ) → bit_and a 7 ≡ a % 8
bit_and-seven a = omega (arith, bit_and_step a 7, bit_and-three (a / 2))

pub bit_and-fifteen : (a : ℕ) → bit_and a 15 ≡ a % 16
bit_and-fifteen a = omega (arith, bit_and_step a 15, bit_and-seven (a / 2))

bit_and-byte : (a : ℕ) → bit_and a 255 ≡ a % 256
bit_and-byte a = omega (
  arith,
  bit_and_step a 255,
  bit_and_step (a / 2) 127,
  bit_and_step (a / 2 / 2) 63,
  bit_and_step (a / 2 / 2 / 2) 31,
  bit_and-fifteen (a / 2 / 2 / 2 / 2),
)

bit_and-twelve_bits : (a : ℕ) → bit_and a 4095 ≡ a % 4096
bit_and-twelve_bits a = omega (
  arith,
  bit_and_step a 4095,
  bit_and_step (a / 2) 2047,
  bit_and_step (a / 2 / 2) 1023,
  bit_and_step (a / 2 / 2 / 2) 511,
  bit_and-byte (a / 2 / 2 / 2 / 2),
)

pub bit_and-word : (a : ℕ) → bit_and a 65535 ≡ a % 65536
bit_and-word a = omega (
  arith,
  bit_and_step a 65535,
  bit_and_step (a / 2) 32767,
  bit_and_step (a / 2 / 2) 16383,
  bit_and_step (a / 2 / 2 / 2) 8191,
  bit_and-twelve_bits (a / 2 / 2 / 2 / 2),
)

pub bit_or-one : (a : ℕ) → bit_or a 1 ≡ a / 2 * 2 + 1
bit_or-one a = omega (arith, bit_or_step a 1, bit_or-zero (a / 2))

pub bit_or-two : (a : ℕ) → bit_or a 2 ≡ a + 2 - a / 2 % 2 * 2
bit_or-two a = omega (arith, bit_or_step a 2, bit_or-one (a / 2))

-- Two words with no bit in common, the first below 4.
pub bit_or_low_two : (a b : ℕ) → a < 4 → b % 4 ≡ 0 → bit_or a b ≡ a + b
bit_or_low_two a b h k = omega (
  arith,
  bit_or_step a b,
  bit_or_step (a / 2) (b / 2),
  zero-bit_or (b / 2 / 2),
  ap (λ (t : ℕ). bit_or t (b / 2 / 2)) (quarter a h),
)
  where
    quarter : (c : ℕ) → c < 4 → c / 2 / 2 ≡ 0
    quarter c lt = omega arith

-- Four bits at a time, where the first word has none of them.
bit_or_nibble : (a b : ℕ) → a % 16 ≡ 0 → bit_or a b ≡ bit_or (a / 16) (b / 16) * 16 + b % 16
bit_or_nibble a b h = omega (
  arith,
  bit_or_step a b,
  bit_or_step (a / 2) (b / 2),
  bit_or_step (a / 2 / 2) (b / 2 / 2),
  bit_or_step (a / 2 / 2 / 2) (b / 2 / 2 / 2),
  ap (λ (x : ℕ). bit_or x (b / 2 / 2 / 2 / 2)) (sixteenth a),
  ap (λ (y : ℕ). bit_or (a / 16) y) (sixteenth b),
)
  where
    sixteenth : (c : ℕ) → c / 2 / 2 / 2 / 2 ≡ c / 16
    sixteenth c = omega arith

-- A high word and a low word, joined.
pub bit_or_word : (a b : ℕ) → a % 65536 ≡ 0 → b < 65536 → bit_or a b ≡ a + b
bit_or_word a b h k = omega (
  arith,
  bit_or_nibble a b (omega arith),
  bit_or_nibble (a / 16) (b / 16) (omega arith),
  bit_or_nibble (a / 16 / 16) (b / 16 / 16) (omega arith),
  bit_or_nibble (a / 16 / 16 / 16) (b / 16 / 16 / 16) (omega arith),
  ap (λ (t : ℕ). bit_or (a / 16 / 16 / 16 / 16) t) gone,
  bit_or-zero (a / 16 / 16 / 16 / 16),
)
  where
    gone : b / 16 / 16 / 16 / 16 ≡ 0
    gone = omega arith

bit_and_nibble : (a b : ℕ) → b % 16 ≡ 0 → bit_and a b ≡ bit_and (a / 16) (b / 16) * 16
bit_and_nibble a b h = omega (
  arith,
  bit_and_step a b,
  bit_and_step (a / 2) (b / 2),
  bit_and_step (a / 2 / 2) (b / 2 / 2),
  bit_and_step (a / 2 / 2 / 2) (b / 2 / 2 / 2),
  ap (λ (x : ℕ). bit_and x (b / 2 / 2 / 2 / 2)) (sixteenth a),
  ap (λ (y : ℕ). bit_and (a / 16) y) (sixteenth b),
)
  where
    sixteenth : (c : ℕ) → c / 2 / 2 / 2 / 2 ≡ c / 16
    sixteenth c = omega arith

bit_and-eight : (a : ℕ) → bit_and a 8 ≡ a / 8 % 2 * 8
bit_and-eight a = omega (
  arith,
  bit_and_step a 8,
  bit_and_step (a / 2) 4,
  bit_and_step (a / 2 / 2) 2,
  bit_and-one (a / 2 / 2 / 2),
)

-- The sign bit of a word.
pub bit_and_sign : (a : ℕ) → bit_and a 0x8000 ≡ a / 32768 % 2 * 32768
bit_and_sign a = omega (
  arith,
  bit_and_nibble a 32768 refl,
  bit_and_nibble (a / 16) 2048 refl,
  bit_and_nibble (a / 16 / 16) 128 refl,
  bit_and-eight (a / 16 / 16 / 16),
)
