-- ===== src/Base/Integers.antt =====
-- Integers over the native numbers, under the library's names.
use Prim.Native.Nat.{ℕ, zero, suc, ◌-◌}
use mathlib.Core.Path.{◌≡◌, ap}

pub data ℤ : Type 0 where
  pos : ℕ → ℤ
  negsuc : ℕ → ℤ

-- The difference, given what the subtrahend has over the minuend and the reverse.
abbrev of_gap : ℕ → ℕ → ℤ
of_gap zero rest = pos rest
of_gap (suc k) rest = negsuc k

-- `a - b`
abbrev pub minus : ℕ → ℕ → ℤ
minus a b = of_gap (b - a) (a - b)

pub minus-negsuc : (a b n : ℕ) → b - a ≡ suc n → minus a b ≡ negsuc n
minus-negsuc a b n h = ap (λ g. of_gap g (a - b)) h
