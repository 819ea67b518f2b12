-- ===== src/Analytics/Profiler/Report.antt =====
-- The peaks and the growth that the profiler reports.
use sys_scope.Base.{
  ℕ, ◌+◌, ◌≤◌, ◌<◌, ◌≡◌, refl, ap, Bool, false, List, [], ◌∷◌, arith, Text, All, All-append, length,
  ltb, if◌then◌else◌, Double, IsOrdered, max_of, max_of_number,
}
use sys_scope.Core.Result.{Result, ok, error}
use sys_scope.Core.Snapshot.{CpuSnapshot, zero_double}
use sys_scope.Platform.Files.{Reader}
use sys_scope.Collectors.Cpu
use sys_scope.Collectors.Cpu.Usage.{zero-capped}
use sys_scope.Collectors.Cpu.Collect.{collect-IsCapped}
use sys_scope.Analytics.Profiler.{
  Samples, add_sample, if_empty, peak_rss_from, peak_rss, growth_of, no_samples, sample_round,
  sample_rounds, final_samples, peak_from, peak_cpu, report_of, profile_command,
}

peak_rss_from-upper :
    (best : ℕ) (xs : List ℕ)
    → (best ≤ peak_rss_from best xs) × All (λ x. x ≤ peak_rss_from best xs) xs
unfolding peak_rss_from
peak_rss_from-upper best [] = (omega arith, tt)
peak_rss_from-upper best (x ∷ xs) =
    let rest = peak_rss_from-upper (if ltb best x then x else best) xs in
    (ground (arith, rest.0), (ground (arith, rest.0), rest.1))

peak_rss_from-least :
    (bound best : ℕ) (xs : List ℕ)
    → best ≤ bound
    → All (λ x. x ≤ bound) xs
    → peak_rss_from best xs ≤ bound
unfolding peak_rss_from
peak_rss_from-least bound best [] h k = h
peak_rss_from-least bound best (x ∷ xs) h k =
    peak_rss_from-least bound (if ltb best x then x else best) xs (ground (arith, h, k.0)) k.1

peak_rss-sampled :
    (initial : ℕ) (xs : List ℕ) → 0 < length xs → peak_rss initial xs ≡ peak_rss_from initial xs
unfolding peak_rss
peak_rss-sampled initial [] h = absurd (omega (arith, h))
peak_rss-sampled initial (x ∷ xs) h = refl

-- With a memory sample, the reported peak is the least upper bound of the samples and of the usage at
-- the start, and the growth is what the peak is above that usage.
pub report_of-memory :
    (W : Type 0) ⦃d : Double W⦄ (linux : Bool) (platform command : Text) (duration : W)
    (initial bound : ℕ) (s : Samples W)
    → 0 < length s.rss
    → initial ≤ bound
    → All (λ x. x ≤ bound) s.rss
    → let r = report_of linux platform command duration initial s in
      (initial ≤ r.peak_rss_bytes)
      × All (λ x. x ≤ r.peak_rss_bytes) s.rss
      × (r.peak_rss_bytes ≤ bound)
      × (initial + r.memory_growth_bytes ≡ r.peak_rss_bytes)
      × (r.initial_rss_bytes ≡ initial)
unfolding report_of growth_of
report_of-memory W linux platform command duration initial bound s n h k =
    let peak : peak_rss initial s.rss ≡ peak_rss_from initial s.rss =
      peak_rss-sampled initial s.rss n in
    let upper = peak_rss_from-upper initial s.rss in
    let least = peak_rss_from-least bound initial s.rss h k in
    rw peak (upper.0, upper.1, least, ground (arith, upper.0), refl)

module _ {W : Type 0} ⦃d : Double W⦄ (laws : IsOrdered W) where
  open d use {lit, lt}

  -- Not above 100 percent
  abbrev pub IsPercent : W → Type 0
  IsPercent x = lt (lit 100 0) x ≡ false

  peak_from-IsPercent :
      (best : W) (xs : List W) → IsPercent best → All IsPercent xs → IsPercent (peak_from best xs)
  unfolding peak_from max_of
  peak_from-IsPercent best [] h k = h
  peak_from-IsPercent best (x ∷ xs) h k =
      peak_from-IsPercent (max_of best x) xs (ground (arith, h, k.0)) k.1

  -- What does not pass the maximum of a number and a reading passes neither.
  not-lt-max_of :
      (p a b : W)
      → d.is_nan a ≡ false
      → lt p (max_of a b) ≡ false
      → (lt p a ≡ false) × (lt p b ≡ false)
  unfolding max_of
  not-lt-max_of p a b n h = ground (arith, laws.lt_trans p a b, laws.lt_cotrans p b a n)

  peak_from-upper :
      (best : W) (xs : List W)
      → d.is_nan best ≡ false
      → (lt (peak_from best xs) best ≡ false) × All (λ x. lt (peak_from best xs) x ≡ false) xs
  unfolding peak_from
  peak_from-upper best [] n = (laws.lt_irrefl best, tt)
  peak_from-upper best (x ∷ xs) n =
      let rest = peak_from-upper (max_of best x) xs (max_of_number laws best x n) in
      let both = not-lt-max_of (peak_from (max_of best x) xs) best x n rest.0 in
      (both.0, (both.1, rest.1))

  -- The reported peak is not below any CPU sample, not even where some samples are no numbers.
  pub report_of-peak_cpu :
      (linux : Bool) (platform command : Text) (duration : W) (initial : ℕ) (s : Samples W)
      → All
          (λ x. lt (report_of linux platform command duration initial s).peak_cpu_percent x ≡ false)
          s.cpu
  unfolding report_of peak_cpu
  report_of-peak_cpu linux platform command duration initial s =
      (peak_from-upper zero_double s.cpu (laws.lit_number 0 0)).1

  add_sample-IsPercent :
      (r : Result (CpuSnapshot W)) (xs : List W)
      → ((s : CpuSnapshot W) → r ≡ ok s → IsPercent s.total_utilization)
      → All IsPercent xs
      → All IsPercent (add_sample (λ (x : CpuSnapshot W). x.total_utilization) r xs)
  add_sample-IsPercent (ok s) xs h v = All-append IsPercent xs _ v (h s refl, tt)
  add_sample-IsPercent (error e) xs h v = v

  collected-IsPercent :
      (fs : Reader) (c : Cpu.CpuCollector) (s : CpuSnapshot W)
      → (Cpu.collect {W = W} fs c).0 ≡ ok s
      → IsPercent s.total_utilization
  collected-IsPercent fs c s e =
      (collect-IsCapped laws fs c (Cpu.collect {W = W} fs c).1 s
        (ap (λ r. (r, (Cpu.collect {W = W} fs c).1)) e)).0

  sample_rounds-IsPercent :
      (rounds : List Reader) (s : Samples W) (c : Cpu.CpuCollector)
      → All IsPercent s.cpu
      → All IsPercent (sample_rounds rounds (s, c)).0.cpu
  unfolding sample_rounds sample_round
  sample_rounds-IsPercent [] s c h = h
  sample_rounds-IsPercent (fs ∷ rest) s c h =
      sample_rounds-IsPercent rest (sample_round fs (s, c)).0 (sample_round fs (s, c)).1
        (add_sample-IsPercent (Cpu.collect {W = W} fs c).0 s.cpu (collected-IsPercent fs c) h)

  if_empty-IsPercent :
      (xs ys : List W) → All IsPercent xs → All IsPercent ys → All IsPercent (if_empty xs ys)
  if_empty-IsPercent [] ys h k = k
  if_empty-IsPercent (x ∷ xs) ys h k = h

  final_samples-IsPercent :
      (after : Reader) (s : Samples W) (c : Cpu.CpuCollector)
      → All IsPercent s.cpu
      → All IsPercent (final_samples after (s, c)).cpu
  unfolding final_samples
  final_samples-IsPercent after s c h =
      if_empty-IsPercent s.cpu _ h
        (add_sample-IsPercent (Cpu.collect {W = W} after c).0 [] (collected-IsPercent after c) tt)

  -- Whatever the files hold at the start, in the rounds and at the end, the profiler reports no peak CPU
  -- above 100 percent.
  pub profile_command-IsPercent :
      (linux : Bool) (platform command : Text) (duration : W) (before : Reader)
      (rounds : List Reader) (after : Reader)
      → IsPercent
          (profile_command linux platform command duration before rounds after).peak_cpu_percent
  unfolding profile_command report_of peak_cpu
  profile_command-IsPercent linux platform command duration before rounds after =
      let c = (Cpu.collect {W = W} before Cpu.fresh).1 in
      let r = sample_rounds rounds (no_samples, c) in
      peak_from-IsPercent zero_double (final_samples after r).cpu (zero-capped laws)
        (final_samples-IsPercent after r.0 r.1 (sample_rounds-IsPercent rounds no_samples c tt))
