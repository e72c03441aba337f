-- ===== src/Genwatch/Registers/Decode.antt =====
-- Decoding against the two's complement encoding, and against what the companion serves
-- (`decode_value` of GenWatch-main/backend/genwatch/modbus/registers.py).
use complete_gen_project.Base.{
  ℕ, ◌+◌, ◌-◌, ◌*◌, ◌/◌, ◌%◌, ◌^◌, ◌<◌, ◌≡◌, refl, ap, false, some, List, ◌∷◌, arith, bit_and,
  bit_and-word, bit_and_sign, bit_or_word, ℤ, pos, negsuc, minus-negsuc, ltb, lt→ltb,
}
use complete_gen_project.Companion.Store.Model.{RegisterStore}
use complete_gen_project.Companion.Store.Modbus.{read_register}
use complete_gen_project.Companion.Store.Registers.{
  WideField, base_addr, field_value, read_register-wide, read_register-lt, IsIdentified,
}
use complete_gen_project.Companion.Server.{get_values, get_values_from}
use complete_gen_project.Genwatch.Registers.{
  s16, u32, s32, decode_int, decode_double, signed_word, signed_double, join_words,
}

-- The number that `w` bits of two's complement stand for, as the encoder writes it.
abbrev pub encode : ℕ → ℤ → ℕ
encode size (pos n) = n
encode size (negsuc n) = size - 1 - n

-- The integer fits in half of `size` on its side of zero.
abbrev pub Fits : ℕ → ℤ → Type 0
Fits half (pos n) = n < half
Fits half (negsuc n) = n < half

pub join_lem : (hi lo : ℕ) → join_words hi lo ≡ hi % 65536 * 65536 + lo % 65536
unfolding join_words
join_lem hi lo =
    rw (bit_and-word hi, bit_and-word lo)
      (bit_or_word (hi % 65536 * 65536) (lo % 65536) (omega arith) (omega arith))

signed_word-pos : (n : ℕ) → n < 32768 → signed_word n ≡ pos n
unfolding signed_word
signed_word-pos n h = rw (same, clear) refl
  where
    same : bit_and n 65535 ≡ n
    same = omega (arith, bit_and-word n)

    clear : bit_and n 32768 ≡ 0
    clear = omega (arith, bit_and_sign n)

signed_word-negsuc : (n : ℕ) → n < 32768 → signed_word (65535 - n) ≡ negsuc n
unfolding signed_word
signed_word-negsuc n h = rw (same, sign) (minus-negsuc (65535 - n) 65536 n (omega arith))
  where
    same : bit_and (65535 - n) 65535 ≡ 65535 - n
    same = omega (arith, bit_and-word (65535 - n))

    sign : bit_and (65535 - n) 32768 ≡ 32768
    sign = omega (arith, bit_and_sign (65535 - n))

signed_double-pos : (n : ℕ) → n < 2 ^ 31 → signed_double n ≡ pos n
unfolding signed_double
signed_double-pos n h = rw (lt→ltb n (2 ^ 31) h) refl

signed_double-negsuc : (n : ℕ) → n < 2 ^ 31 → signed_double (2 ^ 32 - 1 - n) ≡ negsuc n
unfolding signed_double
signed_double-negsuc n h = rw far (minus-negsuc (2 ^ 32 - 1 - n) (2 ^ 32) n (omega arith))
  where
    far : ltb (2 ^ 32 - 1 - n) (2 ^ 31) ≡ false
    far = ground arith

-- An integer that fits 16 bits, written in two's complement, is decoded as itself.
pub decode_int-encode_s16 :
    (z : ℤ) (rest : List ℕ) → Fits (2 ^ 15) z → decode_int s16 (encode (2 ^ 16) z ∷ rest) ≡ some z
unfolding decode_int
decode_int-encode_s16 (pos n) rest h = ap some (signed_word-pos n h)
decode_int-encode_s16 (negsuc n) rest h = ap some (signed_word-negsuc n h)

joined : (n : ℕ) → n < 2 ^ 32 → join_words (n / 65536) (n % 65536) ≡ n
joined n h = omega (arith, join_lem (n / 65536) (n % 65536))

-- An integer that fits 32 bits, written in two's complement with the high word first, is decoded as
-- itself.
pub decode_int-encode_s32 :
    (z : ℤ) (rest : List ℕ)
    → Fits (2 ^ 31) z
    → decode_int s32 (encode (2 ^ 32) z / 65536 ∷ encode (2 ^ 32) z % 65536 ∷ rest) ≡ some z
unfolding decode_int decode_double
decode_int-encode_s32 (pos n) rest h = rw (joined n (omega arith)) (ap some (signed_double-pos n h))
decode_int-encode_s32 (negsuc n) rest h =
    rw (joined (2 ^ 32 - 1 - n) (omega arith)) (ap some (signed_double-negsuc n h))

-- What GenWatch decodes as u32 from a read of a two-word field of the companion is the number that
-- the field stands for, modulo 2 ^ 32, if the identification registers of the store fit a word.
pub decode_int-get_values :
    (now_mono now_wall : ℕ) (s : RegisterStore) (f : WideField)
    → IsIdentified s
    → decode_int u32 (get_values now_mono now_wall s (base_addr f + 1) 2)
      ≡ some (pos (field_value now_mono now_wall s f % 2 ^ 32))
unfolding decode_int decode_double get_values get_values_from
decode_int-get_values now_mono now_wall s f i =
    ap (λ v. some (pos v))
      (omega (
        arith,
        join_lem (read (base_addr f + 1 - 1)) (read (base_addr f + 1 - 1 + 1)),
        ap read first,
        ap (λ a. read (a + 1)) first,
        read_register-wide now_mono now_wall s f,
        read_register-lt now_mono now_wall s (base_addr f) i,
        read_register-lt now_mono now_wall s (base_addr f + 1) i,
      ))
  where
    read : ℕ → ℕ
    read = read_register now_mono now_wall s

    first : base_addr f + 1 - 1 ≡ base_addr f
    first = omega arith
