-- ===== src/Base/Doubles.antt =====
-- What the program does with a `double`: the type and its operations are a parameter.
use Prim.Native.Nat.{ℕ, ◌^◌, ◌<◌, ◌≤◌}
use mathlib.Core.Path.{◌≡◌}
use mathlib.Core.Logic.{◌⊎◌}
use mathlib.Core.Bool.{Bool, true, false, not, ◌&&◌}
use mathlib.Core.Option.{Option}
use native.Mathlib.Omega.{arith}
use sys_scope.Base.Tests.{ltb, if◌then◌else◌}
use sys_scope.Base.Strings.{Text}
use sys_scope.Base.Words.{ℤ}

-- `lit n k` is the literal n / 10^k; `of_u64` the cast of an integer; `lt` the operator `<`, false
-- where an operand is NaN; `stod` is std::stod, `none` where it throws; `print p x` the text of
-- `"%.*f"`; `trunc` the cast to an integer type that holds the result.
pub record Double (W : Type 0) : Type 0 where
  pub lit : ℕ → ℕ → W
  pub of_u64 : ℕ → W
  pub add : W → W → W
  pub mul : W → W → W
  pub div : W → W → W
  pub lt : W → W → Bool
  pub is_nan : W → Bool
  pub stod : Text → Option W
  pub print : ℕ → W → Text
  pub trunc : W → ℤ

module _ {W : Type 0} ⦃d : Double W⦄ where
  open d use {lt, is_nan}

  -- `std::max(a, b)` and `std::min(a, b)` as the standard defines them.
  unfoldable pub max_of : W → W → W
  max_of a b = if lt a b then b else a

  unfoldable pub min_of : W → W → W
  min_of a b = if lt b a then b else a

  -- `a >= b`, false where an operand is NaN.
  unfoldable pub ge : W → W → Bool
  ge a b = not (lt a b) && (not (is_nan a) && not (is_nan b))

  -- `std::clamp(v, lo, hi)`
  unfoldable pub clamp : W → W → W → W
  clamp v lo hi = if lt v lo then lo else if lt hi v then hi else v

-- The IEEE 754 order, with literals of at most fifteen digits and six decimals told apart.
pub record IsOrdered (W : Type 0) ⦃d : Double W⦄ : Type 0 where
  pub lt_irrefl : (a : W) → d.lt a a ≡ false
  pub lt_trans : (a b c : W) → d.lt a b ≡ true → d.lt b c ≡ true → d.lt a c ≡ true
  pub lt_cotrans :
      (a b c : W) → d.is_nan c ≡ false → d.lt a b ≡ true → (d.lt a c ≡ true) ⊎ (d.lt c b ≡ true)
  pub lt_number : (a b : W) → d.lt a b ≡ true → (d.is_nan a ≡ false) × (d.is_nan b ≡ false)
  pub lit_number : (n k : ℕ) → d.is_nan (d.lit n k) ≡ false
  pub lit-lt :
      (n m k : ℕ) → n < 10 ^ 15 → m < 10 ^ 15 → k ≤ 6 → d.lt (d.lit n k) (d.lit m k) ≡ ltb n m

module _ {W : Type 0} ⦃d : Double W⦄ (laws : IsOrdered W) where
  open d use {lt, is_nan}

  pub max_of_number : (a b : W) → is_nan a ≡ false → is_nan (max_of a b) ≡ false
  unfolding max_of
  max_of_number a b h = ground (arith, laws.lt_number a b)

  -- A number and any reading: the maximum passes a bound exactly when one of the two does.
  pub lt-max_of :
      (t a b : W) → is_nan a ≡ false → lt t (max_of a b) ≡ true → (lt t a ≡ true) ⊎ (lt t b ≡ true)
  unfolding max_of
  lt-max_of t a b n h = ground arith

  pub lt-max_of_left : (t a b : W) → lt t a ≡ true → lt t (max_of a b) ≡ true
  unfolding max_of
  lt-max_of_left t a b h = ground (arith, laws.lt_trans t a b)

  pub lt-max_of_right : (t a b : W) → is_nan a ≡ false → lt t b ≡ true → lt t (max_of a b) ≡ true
  unfolding max_of
  lt-max_of_right t a b n h = ground (arith, laws.lt_cotrans t b a n h)

  -- `std::min(top, x)` never passes `top`.
  pub not-lt-min_of : (top x : W) → lt top (min_of top x) ≡ false
  unfolding min_of
  not-lt-min_of top x = ground (arith, laws.lt_irrefl top, laws.lt_trans top x top)
