-- ===== src/Common/Float.antt =====
-- float64 is a parameter: the numbers and the operations that the program uses, with the order laws
-- of IEEE 754 that the proofs need. `<` is false as soon as a side is NaN; `nan` tells those apart.
use Prim.Native.Nat.{ℕ}
use mathlib.Core.Path.{◌≡◌}
use mathlib.Core.Bool.{Bool, true, false}
use llm_platform.Common.Int.{ℤ}

pub record Float64 : Type 1 where
  pub Num : Type 0
  pub of_nat : ℕ → Num
  -- the literal `n / 10^k`
  pub lit : ℕ → ℕ → Num
  pub add : Num → Num → Num
  pub sub : Num → Num → Num
  pub mul : Num → Num → Num
  pub div : Num → Num → Num
  -- `a < b`; the source's `a > b` is `lt b a`
  pub lt : Num → Num → Bool
  -- `a <= b`; the source's `a >= b` is `le b a`
  pub le : Num → Num → Bool
  -- `a == b`
  pub eq : Num → Num → Bool
  -- `math.Ceil`, `math.Max`, `float64(n)` and `int(f)` on integers
  pub ceil : Num → Num
  pub fmax : Num → Num → Num
  pub of_int : ℤ → Num
  pub to_int : Num → ℤ
  pub nan : Num → Bool
  pub lt_irrefl : (a : Num) → lt a a ≡ false
  pub lt_trans : (a b c : Num) → lt a b ≡ true → lt b c ≡ true → lt a c ≡ true
  pub not_lt_trans :
      (a b c : Num) → nan b ≡ false → lt a b ≡ false → lt b c ≡ false → lt a c ≡ false
  pub of_nat_number : (n : ℕ) → nan (of_nat n) ≡ false
