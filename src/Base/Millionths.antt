-- ===== src/Base/Millionths.antt =====
-- An instance of `Double` at which the theorems are applied: millionths, rounded down, no NaN.
use Prim.Native.Nat.{ℕ, zero, suc, ◌+◌, ◌-◌, ◌*◌, ◌/◌, ◌%◌, ◌^◌, ◌<◌, ◌≤◌}
use mathlib.Core.Path.{◌≡◌, refl}
use mathlib.Core.Bool.{false}
use mathlib.Core.List.{[], ◌∷◌, ◌++◌}
use mathlib.Core.Option.{Option, none, some}
use native.Mathlib.Omega.{arith}
use native.Mathlib.Decide.{dec_lt}
use native.Mathlib.Nat.{mul-le-mul, le_refl}
use sys_scope.Base.Tests.{ltb, ◌==◌, if◌then◌else◌}
use sys_scope.Base.Strings.{Text, scan_digits, digit_ahead, to_string}
use sys_scope.Base.Words.{pos}
use sys_scope.Base.Doubles.{Double, IsOrdered}

abbrev pub Micro : Type 0
Micro = ℕ

-- The digits behind the point, the first six of them.
micro_fraction : ℕ → Text → ℕ
micro_fraction zero s = 0
micro_fraction (suc f) [] = 0
micro_fraction (suc f) (c ∷ s) =
    if digit_ahead (c ∷ s) then (c - b'0') * 10 ^ f + micro_fraction f s else 0

micro_decimals : Text → ℕ
unfolding micro_fraction
micro_decimals [] = 0
micro_decimals (c ∷ s) = if c == b'.' then micro_fraction 6 s else 0

unfoldable pub micro_stod : Text → Option Micro
unfolding micro_decimals scan_digits
micro_stod s =
    if digit_ahead s
    then (let (n, r) = scan_digits 0 s in some (n * 1_000_000 + micro_decimals r))
    else none

unfoldable pub micro_print : ℕ → Micro → Text
unfolding to_string
micro_print p x = to_string (x / 1_000_000) ++ (b'.' ∷ to_string (x % 1_000_000 / 10 ^ (6 - p)))

instance abbrev pub micro_double : Double Micro
micro_double = record {
  lit = λ n k. n * 10 ^ (6 - k);
  of_u64 = λ n. n * 1_000_000;
  add = λ a b. a + b;
  mul = λ a b. a * b / 1_000_000;
  div = λ a b. a * 1_000_000 / b;
  lt = ltb;
  is_nan = λ a. false;
  stod = micro_stod;
  print = micro_print;
  trunc = λ a. pos (a / 1_000_000);
}

ltb-scale : (n m c : ℕ) → 0 < c → ltb (n * c) (m * c) ≡ ltb n m
ltb-scale n m c h = elim (dec_lt n m) [
  | yes p ↦ let q : n * c < m * c = grind arith in ground arith
  | no p ↦
      let q : m * c ≤ n * c = mul-le-mul {n₁ = m} {m₁ = c} (omega arith) (le_refl c) in ground arith
]

ten_pow_pos : (k : ℕ) → 0 < 10 ^ k
ten_pow_pos zero = omega arith
ten_pow_pos (suc k) = omega (arith, ten_pow_pos k)

pub Micro-IsOrdered : IsOrdered Micro
Micro-IsOrdered = record {
  lt_irrefl = λ a. ground arith;
  lt_trans = λ a b c. ground arith;
  lt_cotrans = λ a b c _ h. ground arith;
  lt_number = λ a b h. (refl, refl);
  lit_number = λ n k. refl;
  lit-lt = λ n m k _ _ _. ltb-scale n m (10 ^ (6 - k)) (ten_pow_pos (6 - k));
}
