-- ===== src/Analytics/Correlation/Justified.antt =====
-- Every diagnosis is backed by evidence above its thresholds, and its confidence is the capped sum of
-- the contributions.
use sys_scope.Base.{
  ℕ, ◌<◌, ◌≡◌, refl, ap, inl, inr, Bool, true, false, List, [], ◌∷◌, ◌++◌, Option, none, some,
  arith, All, All-append, length, length-append, not, ◌||◌, Bool-cases, Double, min_of,
}
use sys_scope.Core.Snapshot.{MetricSnapshot, PsiSnapshot, GpuSnapshot, zero_double}
use sys_scope.Analytics.Correlation.{
  Evidence, Diagnosis, Draft, note, note_if, no_draft, conclude, max_temp, thermal_rule,
  memory_rule, io_rule, cpu_rule, analyze, add_found, note_gpu, memory_of, io_of, cpu_of, is_some,
  no_cores, temp_evidence, busy_evidence, psi_io_evidence, iowait_evidence,
}

module _ {W : Type 0} ⦃d : Double W⦄ where
  open d use {lit, add, lt}

  abbrev total_contribution : W → List (Evidence W) → W
  total_contribution acc [] = acc
  total_contribution acc (e ∷ es) = total_contribution (add acc e.contribution) es

  pub record IsJustified (x : Diagnosis W) : Type 0 where
    pub exceeded : All (λ (e : Evidence W). lt e.threshold e.observed_value ≡ true) x.evidence
    pub weighed : x.confidence ≡ min_of (lit 1 0) (total_contribution zero_double x.evidence)
    pub shown : 0 < length x.evidence

  record IsWeighed (w : Draft W) : Type 0 where
    exceeded : All (λ (e : Evidence W). lt e.threshold e.observed_value ≡ true) w.found
    weighed : w.confidence ≡ total_contribution zero_double w.found

  total_contribution-append :
      (acc : W) (es : List (Evidence W)) (e : Evidence W)
      → total_contribution acc (es ++ (e ∷ [])) ≡ add (total_contribution acc es) e.contribution
  total_contribution-append acc [] e = refl
  total_contribution-append acc (x ∷ es) e = total_contribution-append (add acc x.contribution) es e

  no_draft-IsWeighed : IsWeighed no_draft
  no_draft-IsWeighed = record { exceeded = tt; weighed = refl }

  note-IsWeighed :
      (e : Evidence W) (amount : W) (w : Draft W)
      → e.contribution ≡ amount
      → lt e.threshold e.observed_value ≡ true
      → IsWeighed w
      → IsWeighed (note e amount w)
  note-IsWeighed e amount w c h v = record {
    exceeded = All-append _ w.found (e ∷ []) v.exceeded (h, tt);
    weighed = ground (arith, total_contribution-append zero_double w.found e, v.weighed);
  }

  note_if-IsWeighed :
      (b : Bool) (e : Evidence W) (amount : W) (w : Draft W)
      → e.contribution ≡ amount
      → (b ≡ true → lt e.threshold e.observed_value ≡ true)
      → IsWeighed w
      → IsWeighed (note_if b e amount w)
  note_if-IsWeighed true e amount w c h v = note-IsWeighed e amount w c (h refl) v
  note_if-IsWeighed false e amount w c h v = v

  conclude-IsJustified :
      (condition : List ℕ) (w : Draft W)
      → 0 < length w.found
      → IsWeighed w
      → IsJustified (conclude condition w)
  conclude-IsJustified condition w n v = record {
    exceeded = v.exceeded;
    weighed = ap (min_of (lit 1 0)) v.weighed;
    shown = n;
  }

  -- What is said of a rule: it finds nothing, or a justified diagnosis.
  abbrev Finds : Option (Diagnosis W) → Type 0
  Finds none = Unit
  Finds (some x) = IsJustified x

  note_gpu-IsWeighed :
      (g : Option (GpuSnapshot W)) (w : Draft W) → IsWeighed w → IsWeighed (note_gpu g w)
  unfolding note_gpu
  note_gpu-IsWeighed none w v = v
  note_gpu-IsWeighed (some g) w v =
      note_if-IsWeighed (lt (lit 85 0) g.utilization_percent) _ (lit 25 2) w refl (λ h. h) v

  length-note_if :
      (b : Bool) (e : Evidence W) (amount : W) (w : Draft W)
      → 0 < length w.found
      → 0 < length (note_if b e amount w).found
  length-note_if b e amount w h = ground (arith, length-append w.found (e ∷ []))

  memory_of-Finds : (used : W) (p : Option (PsiSnapshot W)) → Finds (memory_of used p)
  unfolding memory_of
  memory_of-Finds used none = tt
  memory_of-Finds used (some p) = elim (Bool-cases (lt (lit 70 0) used)) [
    | inl u ↦ elim (Bool-cases (lt (lit 5 0) p.memory_some.avg10)) [
      | inl m ↦
          rw (u, m)
            (conclude-IsJustified _ _ (omega arith) (
              note-IsWeighed _ (lit 35 2) _ refl u
                (note-IsWeighed _ (lit 50 2) no_draft refl m no_draft-IsWeighed)))
      | inr m ↦ rw (u, m) tt
    ]
    | inr u ↦ rw u tt
  ]

  io_of-Finds : (iowait : W) (p : Option (PsiSnapshot W)) → Finds (io_of iowait p)
  unfolding io_of
  io_of-Finds iowait none = tt
  io_of-Finds iowait (some p) = elim (Bool-cases (lt (lit 5 0) p.io_some.avg10)) [
    | inl i ↦
        let high = lt (lit 10 0) iowait in
        let w = note (psi_io_evidence p.io_some.avg10) (lit 55 2) no_draft in
        rw i (
          conclude-IsJustified _ _
            (length-note_if high (iowait_evidence iowait) (lit 35 2) w (omega arith))
            (note_if-IsWeighed high (iowait_evidence iowait) (lit 35 2) w refl (λ h. h)
              (note-IsWeighed (psi_io_evidence p.io_some.avg10) (lit 55 2) no_draft refl i
                no_draft-IsWeighed)))
    | inr i ↦ rw i tt
  ]

  cpu_of-Finds : (used : W) (p : Option (PsiSnapshot W)) → Finds (cpu_of used p)
  unfolding cpu_of
  cpu_of-Finds used none = tt
  cpu_of-Finds used (some p) = elim (Bool-cases (lt (lit 75 0) used)) [
    | inl u ↦ elim (Bool-cases (lt (lit 5 0) p.cpu_some.avg10)) [
      | inl c ↦
          rw (u, c)
            (conclude-IsJustified _ _ (omega arith) (
              note-IsWeighed _ (lit 40 2) _ refl u
                (note-IsWeighed _ (lit 50 2) no_draft refl c no_draft-IsWeighed)))
      | inr c ↦ rw (u, c) tt
    ]
    | inr u ↦ rw u tt
  ]

  length-note_gpu :
      (g : Option (GpuSnapshot W)) (w : Draft W)
      → 0 < length w.found
      → 0 < length (note_gpu g w).found
  unfolding note_gpu
  length-note_gpu none w h = h
  length-note_gpu (some g) w h =
      length-note_if (lt (lit 85 0) g.utilization_percent) _ (lit 25 2) w h

  thermal_rule-Finds : (s : MetricSnapshot W) → Finds (thermal_rule s)
  unfolding thermal_rule
  thermal_rule-Finds s = elim (Bool-cases (is_some s.gpu || not (no_cores s.cpu.per_core))) [
    | inl p ↦ elim (Bool-cases (lt (lit 75 0) (max_temp s))) [
      | inl t ↦
          let used = s.cpu.total_utilization in
          let busy = lt (lit 80 0) used in
          let w = note (temp_evidence (max_temp s)) (lit 40 2) no_draft in
          let w' = note_if busy (busy_evidence used) (lit 25 2) w in
          rw (p, t)
            (conclude-IsJustified _ _
              (length-note_gpu s.gpu w'
                (length-note_if busy (busy_evidence used) (lit 25 2) w (omega arith)))
              (note_gpu-IsWeighed s.gpu w' (
                note_if-IsWeighed busy (busy_evidence used) (lit 25 2) w refl (λ h. h)
                  (note-IsWeighed (temp_evidence (max_temp s)) (lit 40 2) no_draft refl t
                    no_draft-IsWeighed))))
      | inr t ↦ rw (p, t) tt
    ]
    | inr p ↦ rw p tt
  ]

  add_found-IsJustified :
      (o : Option (Diagnosis W)) (xs : List (Diagnosis W))
      → Finds o
      → All IsJustified xs
      → All IsJustified (add_found o xs)
  unfolding add_found
  add_found-IsJustified none xs f h = h
  add_found-IsJustified (some x) xs f h = (f, h)

  -- For every snapshot, each diagnosis has evidence, every piece of it lies above its threshold, and
  -- the confidence is the sum of the contributions, at most 1.0.
  pub analyze-IsJustified : (s : MetricSnapshot W) → All IsJustified (analyze s)
  unfolding analyze memory_rule io_rule cpu_rule
  analyze-IsJustified s = add_found-IsJustified _ _ (thermal_rule-Finds s) (
      add_found-IsJustified _ _ (memory_of-Finds s.memory.utilization_percent s.psi) (
        add_found-IsJustified _ _ (io_of-Finds s.cpu.iowait_percent s.psi)
          (add_found-IsJustified _ [] (cpu_of-Finds s.cpu.total_utilization s.psi) tt)))
