-- ===== src/Core/Result.antt =====
-- include/sysscope/core/result.hpp: a value or an error text. `Outcome` is what a C++ call does that
-- may throw.
use sys_scope.Base.{◌≡◌, refl, ◌⊎◌, inl, inr, Bool, true, false, [], ◌++◌, Text, codes}

pub data Result {ℓ} (A : Type ℓ) : Type ℓ where
  ok : A → Result A
  error : Text → Result A

pub data Outcome {ℓ} (A : Type ℓ) : Type ℓ where
  returns : A → Outcome A
  throws : Text → Outcome A

module _ {ℓ} {A : Type ℓ} where
  abbrev is_ok : Result A → Bool
  is_ok (ok a) = true
  is_ok (error m) = false

  abbrev is_err : Result A → Bool
  is_err (ok a) = false
  is_err (error m) = true

  -- `value()`
  abbrev pub value : Result A → Outcome A
  value (ok a) = returns a
  value (error m) = throws (codes "Attempted to access value of an error Result: " ++ m)

  abbrev pub value_or : Result A → A → A
  value_or (ok a) fallback = a
  value_or (error m) fallback = fallback

  abbrev error_message : Result A → Text
  error_message (ok a) = []
  error_message (error m) = m

  pub Result-cases : (r : Result A) → ((a : A) × (r ≡ ok a)) ⊎ ((m : Text) × (r ≡ error m))
  Result-cases (ok a) = inl (a, refl)
  Result-cases (error m) = inr (m, refl)

  pub Outcome-cases : (o : Outcome A) → ((a : A) × (o ≡ returns a)) ⊎ ((m : Text) × (o ≡ throws m))
  Outcome-cases (returns a) = inl (a, refl)
  Outcome-cases (throws m) = inr (m, refl)
