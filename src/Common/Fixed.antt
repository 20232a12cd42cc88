-- ===== src/Common/Fixed.antt =====
-- A concrete `Float64`: decimals of three places, none of them negative or NaN. It meets the laws, so
-- the theorems over a `Float64` are not empty; the examples run on it.
use Prim.Native.Nat.{ℕ, ◌+◌, ◌-◌, ◌*◌, ◌/◌, ◌^◌, max}
use mathlib.Core.Path.{◌≡◌, refl}
use mathlib.Core.Bool.{true, false}
use native.Mathlib.Omega.{arith}
use llm_platform.Common.Tests.{ltb, leb, eqb}
use llm_platform.Common.Int.{pos, pos_part}
use llm_platform.Common.Float.{Float64}

pub ltb_irrefl : (a : ℕ) → ltb a a ≡ false
ltb_irrefl a = ground arith

pub ltb_trans : (a b c : ℕ) → ltb a b ≡ true → ltb b c ≡ true → ltb a c ≡ true
ltb_trans a b c p q = ground arith

pub not_ltb_trans : (a b c : ℕ) → ltb a b ≡ false → ltb b c ≡ false → ltb a c ≡ false
not_ltb_trans a b c p q = ground arith

abbrev pub fixed : Float64
fixed = record {
  Num = ℕ;
  of_nat = λ n. n * 1000;
  lit = λ n k. n * 1000 / 10 ^ k;
  add = λ a b. a + b;
  sub = λ a b. a - b;
  mul = λ a b. a * b / 1000;
  div = λ a b. a * 1000 / b;
  lt = ltb;
  le = leb;
  eq = eqb;
  ceil = λ a. (a + 999) / 1000 * 1000;
  fmax = max;
  of_int = λ z. pos_part z * 1000;
  to_int = λ a. pos (a / 1000);
  nan = λ _. false;
  lt_irrefl = ltb_irrefl;
  lt_trans = ltb_trans;
  not_lt_trans = λ a b c _ p q. not_ltb_trans a b c p q;
  of_nat_number = λ _. refl;
}
