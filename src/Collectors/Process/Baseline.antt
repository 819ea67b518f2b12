-- ===== src/Collectors/Process/Baseline.antt =====
-- What a call of `ProcessCollector::collect` remembers for the next one, on each of its ways out.
use sys_scope.Base.{
  ℕ, ◌≡◌, refl, inl, inr, true, List, [], ◌∷◌, ◌++◌, Option, none, some, Text, codes, ℤ, int_key,
  int_eq, lookup, lookup-insert, Bool-cases, if◌then◌else◌, add_u64, Double,
}
use sys_scope.Core.Result.{Result, ok, error, Outcome, returns, throws}
use sys_scope.Core.Snapshot.{ProcessSnapshot, ProcessInfo}
use sys_scope.Platform.Files.{Reader}
use sys_scope.Collectors.Process.{
  ProcessCollector, ProcessStateSnapshot, Progress, no_progress, add_process, then_scan,
  scan_entries, finish, collect_names, collect, read_process, system_time_of,
}
use sys_scope.Collectors.Process.Tree.Family.{last_process}

abbrev remembered_time : Option ProcessStateSnapshot → Option ℕ
remembered_time none = none
remembered_time (some s) = some s.total_process_cpu_time

module _ {W : Type 0} ⦃d : Double W⦄ where
  abbrev reported_time : Option (ProcessInfo W) → Option ℕ
  reported_time none = none
  reported_time (some i) = some (add_u64 i.utime i.stime)

  last_process-append :
      (k : ℤ) (before : Option (ProcessInfo W)) (xs : List (ProcessInfo W)) (x : ProcessInfo W)
      → last_process k before (xs ++ (x ∷ []))
        ≡ (if int_eq x.pid k then some x else last_process k before xs)
  last_process-append k before [] x = refl
  last_process-append k before (y ∷ xs) x =
      last_process-append k (if int_eq y.pid k then some y else before) xs x

  -- The states of the loop are those of its list.
  abbrev IsCurrent : ℤ → Progress W → Type 0
  IsCurrent k p = remembered_time (lookup k p.states) ≡ reported_time (last_process k none p.list)

  add_process-IsCurrent :
      (k : ℤ) (now : ℕ) (o : Option (ProcessInfo W)) (p : Progress W)
      → IsCurrent k p
      → IsCurrent k (add_process now o p)
  unfolding add_process
  add_process-IsCurrent k now none p h = h
  add_process-IsCurrent k now (some i) p h =
      rw (lookup-insert i.pid k _ p.states, last_process-append k none p.list i)
        (elim (Bool-cases (int_eq i.pid k)) [ inl e ↦ rw e refl | inr e ↦ rw e h ])

  abbrev Tracks : ℤ → Outcome (Progress W) → Type 0
  Tracks k (throws e) = Unit
  Tracks k (returns p) = IsCurrent k p

  then_scan-Tracks :
      (k : ℤ) (o : Outcome (Option (ProcessInfo W)))
      (f : Option (ProcessInfo W) → Outcome (Progress W))
      → ((i : Option (ProcessInfo W)) → Tracks k (f i))
      → Tracks k (then_scan o f)
  unfolding then_scan
  then_scan-Tracks k (throws e) f h = tt
  then_scan-Tracks k (returns i) f h = h i

  scan_entries-Tracks :
      (k : ℤ) (fs : Reader) (clock : Text → ℕ) (c : ProcessCollector) (total : ℕ) (ns : List Text)
      (p : Progress W)
      → IsCurrent k p
      → Tracks k (scan_entries fs clock c total ns p)
  unfolding scan_entries
  scan_entries-Tracks k fs clock c total [] p h = h
  scan_entries-Tracks k fs clock c total (n ∷ ns) p h =
      then_scan-Tracks k (read_process fs c total n) _ (λ i.
        scan_entries-Tracks k fs clock c total ns (add_process (clock n) i p)
          (add_process-IsCurrent k (clock n) i p h))

-- What is remembered of the pid `k` beside what is reported; `total` is the system's time.
abbrev pub Remembers :
    {W : Type 0} ⦃d : Double W⦄
    → ProcessCollector
    → ℕ
    → ℤ
    → Outcome (Result (ProcessSnapshot W))
    → ProcessCollector
    → Type 0
Remembers c total k (throws e) c' = c' ≡ c
Remembers c total k (returns (error e)) c' = c' ≡ c
Remembers c total k (returns (ok s)) c' =
    (c'.has_previous_state ≡ true)
    × (c'.previous_total_system_time ≡ total)
    × (remembered_time (lookup k c'.previous_process_states)
        ≡ reported_time (last_process k none s.process_list))

-- Whether the call reports, fails or throws: a call that fails or throws leaves the collector as it was;
-- one that reports remembers the system's time, and for each pid the time of the last process that it
-- reports with that pid, and nothing for a pid that it does not report, so exited processes are
-- forgotten.
pub collect-Remembers :
    (W : Type 0) ⦃d : Double W⦄ (fs : Reader) (clock : Text → ℕ) (c : ProcessCollector) (k : ℤ)
    → let (r, c') = collect {W = W} fs clock c in
      Remembers {W = W} c (system_time_of (fs.read_file_lines (codes "/proc/stat"))) k r c'
unfolding collect collect_names finish lookup
collect-Remembers W fs clock c k = of_names (fs.list_directory_entries (codes "/proc"))
  where
    total : ℕ
    total = system_time_of (fs.read_file_lines (codes "/proc/stat"))

    of_progress :
        (o : Outcome (Progress W))
        → Tracks k o
        → Remembers {W = W} c total k (finish c total o).0 (finish c total o).1
    of_progress (throws e) h = refl
    of_progress (returns p) h = (refl, refl, h)

    of_names :
        (r : Result (List Text))
        → Remembers {W = W} c total k
            (collect_names fs clock c total r).0
            (collect_names {W = W} fs clock c total r).1
    of_names (error e) = refl
    of_names (ok ns) =
        of_progress (scan_entries fs clock c total ns no_progress)
          (scan_entries-Tracks k fs clock c total ns no_progress refl)
