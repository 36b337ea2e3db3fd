-- ===== src/Common/Division.antt =====
-- `Math.ceil` of a quotient of natural numbers.
use Prim.Native.Nat.{ℕ, suc, ◌+◌, ◌*◌, ◌-◌, ◌/◌, ◌%◌, ◌≤◌, ◌<◌}
use mathlib.Core.Path.{◌≡◌}
use native.Mathlib.Omega.{arith}
use native.Mathlib.Decide.{dec_lt}
use native.Mathlib.Nat.{mod-lt, div-add-mod', mul-le-mul_right}

-- The quotient rounded up, for d > 0.
abbrev pub ceil : ℕ → ℕ → ℕ
ceil n d = (n + d - 1) / d

quotient_above : (p q n d r : ℕ) → p * d < n → q * d + r ≡ n + d - 1 → r < d → p < q
quotient_above p q n d r h e small = elim (dec_lt p q) [
  | yes lt ↦ lt
  | no ge ↦
      let le : q ≤ p = omega arith in
      let more : q * d ≤ p * d = mul-le-mul_right d le in absurd (omega arith)
]

quotient_below : (p q n d r : ℕ) → 0 < d → p < q → q * d + r ≡ n + d - 1 → r < d → p * d < n
quotient_below p q n d r pos lt e small =
    let more : suc p * d ≤ q * d = mul-le-mul_right d lt in omega arith

pub lt-ceil : (p n d : ℕ) → 0 < d → p * d < n → p < ceil n d
lt-ceil p n d pos h =
    quotient_above p ((n + d - 1) / d) n d ((n + d - 1) % d) h (div-add-mod' (n + d - 1) d)
      (mod-lt (n + d - 1) pos)

pub mul-lt_of_lt-ceil : (p n d : ℕ) → 0 < d → p < ceil n d → p * d < n
mul-lt_of_lt-ceil p n d pos h =
    quotient_below p ((n + d - 1) / d) n d ((n + d - 1) % d) pos h (div-add-mod' (n + d - 1) d)
      (mod-lt (n + d - 1) pos)
