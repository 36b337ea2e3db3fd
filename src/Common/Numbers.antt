-- ===== src/Common/Numbers.antt =====
-- JavaScript numbers as far as the client's own code tells them apart: whole numbers and NaN.
use Prim.Native.Nat.{ℕ, ◌-◌}
use neural_vyuha_prime.Common.Tests.{leb, if◌then◌else◌}

-- `negsuc n` is -(n + 1).
pub data ℤ : Type 0 where
  pos : ℕ → ℤ
  negsuc : ℕ → ℤ

pub data Number : Type 0 where
  nan : Number
  whole : ℤ → Number

-- a - b, as an integer.
abbrev pub sub_ℕ : ℕ → ℕ → ℤ
sub_ℕ a b = if leb b a then pos (a - b) else negsuc (b - a - 1)
