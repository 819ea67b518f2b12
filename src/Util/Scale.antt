-- ===== src/Util/Scale.antt =====
-- The choice of a unit: where the loop of format_bytes ends.
use sys_scope.Base.{
  ℕ, zero, suc, ◌+◌, ◌-◌, ◌≤◌, ◌<◌, ◌≡◌, refl, ap, ◌∙◌, inl, inr, true, false, arith, Bool-cases,
  Double, ge, Text, codes, take, [], ◌∷◌, ◌++◌,
}
use sys_scope.Util.{too_large, scale_loop, scaled, format_bytes, byte_units, unit_at}

module _ {W : Type 0} ⦃d : Double W⦄ where
  open d use {lit, div, of_u64}

  -- `b` divided by 1024.0 so many times.
  abbrev pub divided : ℕ → W → W
  divided zero b = b
  divided (suc n) b = divided n (div b (lit 1024 0))

  -- All of the first `n` values are 1024.0 or more.
  abbrev pub LargeFor : ℕ → W → Type 0
  LargeFor zero b = Unit {0}
  LargeFor (suc n) b = (ge b (lit 1024 0) ≡ true) × LargeFor n (div b (lit 1024 0))

  -- Up to unit `top`: the `n` values divided were 1024.0 or more, and the loop has stopped by its test.
  pub record IsScaled (top i : ℕ) (b : W) (n : ℕ) : Type 0 where
    pub within : i + n ≤ top
    pub large : LargeFor n b
    pub stopped : too_large top (divided n b) (i + n) ≡ false

  scale_loop-IsScaled :
      (fuel top : ℕ) (b : W) (i : ℕ)
      → i ≤ top
      → top - i < fuel
      → (n : ℕ) × IsScaled top i b n × (scale_loop fuel top b i ≡ (divided n b, i + n))
  unfolding scale_loop
  scale_loop-IsScaled zero top b i h k = absurd (omega arith)
  scale_loop-IsScaled (suc fuel) top b i h k = elim (Bool-cases (too_large top b i)) [
    | inl e ↦
        let (n, s, q) =
          scale_loop-IsScaled fuel top (div b (lit 1024 0)) (i + 1) (ground arith) (ground arith) in
        let shift : i + 1 + n ≡ i + suc n = omega arith in
        (
          suc n,
          record {
            within = omega (arith, s.within);
            large = (ground arith, s.large);
            stopped = rw (← shift) s.stopped;
          },
          rw e (q ∙ ap (λ (k : ℕ). (divided (suc n) b, k)) shift),
        )
    | inr e ↦
        let shift : i + 0 ≡ i = omega arith in
        (0, record { within = omega arith; large = tt; stopped = rw shift e }, rw (e, shift) refl)
  ]

-- The names of the powers of 1024.
abbrev pub unit_name : ℕ → Text
unit_name zero = codes "B"
unit_name (suc zero) = codes "KB"
unit_name (suc (suc zero)) = codes "MB"
unit_name (suc (suc (suc zero))) = codes "GB"
unit_name (suc (suc (suc (suc zero)))) = codes "TB"
unit_name (suc (suc (suc (suc (suc n))))) = []

unit_at-name : (n : ℕ) → unit_at byte_units n ≡ unit_name n
unit_at-name zero = refl
unit_at-name (suc zero) = refl
unit_at-name (suc (suc zero)) = refl
unit_at-name (suc (suc (suc zero))) = refl
unit_at-name (suc (suc (suc (suc zero)))) = refl
unit_at-name (suc (suc (suc (suc (suc n))))) = refl

-- For every number of bytes the loop of format_bytes stops within its fuel, after `n` divisions by
-- 1024.0, with `n` at most 4: the values before the last were 1024.0 or more, and the last is not, or
-- `n` is 4. The text is the last value with two decimals, a blank, and B, KB, MB, GB or TB for `n` from 0
-- to 4, cut behind 63 characters.
pub format_bytes-IsScaled :
    (W : Type 0) ⦃d : Double W⦄ (bytes : ℕ)
    → (n : ℕ) × IsScaled {W = W} 4 0 (d.of_u64 bytes) n
      × (format_bytes W bytes
          ≡ take 63 (d.print 2 (divided n (d.of_u64 bytes)) ++ (32 ∷ unit_name n)))
unfolding format_bytes scaled
format_bytes-IsScaled W ⦃d⦄ bytes =
    let (n, s, q) = scale_loop-IsScaled 5 4 (d.of_u64 bytes) 0 (omega arith) (omega arith) in
    let shift : 0 + n ≡ n = omega arith in
    (
      n,
      s,
      rw q (
          ap (λ (k : ℕ). scaled {W = W} byte_units (divided n (d.of_u64 bytes), k)) shift
          ∙ ap (λ (u : Text). take 63 (d.print 2 (divided n (d.of_u64 bytes)) ++ (32 ∷ u)))
              (unit_at-name n)),
    )
