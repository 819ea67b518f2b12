-- ===== src/Collectors/Process/Counts.antt =====
-- What a call of `ProcessCollector::collect` counts, and when it keeps its state.
use sys_scope.Base.{
  ℕ, ◌+◌, ◌≡◌, refl, ◌∙◌, inl, inr, Bool, List, [], ◌∷◌, ◌++◌, Option, none, some, arith, Text,
  codes, length, keep, ◌==◌, Bool-cases, if◌then◌else◌, to_u32, Double,
}
use sys_scope.Core.Result.{Result, ok, error, Outcome, returns, throws}
use sys_scope.Core.Snapshot.{ProcessSnapshot, ProcessInfo}
use sys_scope.Platform.Files.{Reader}
use sys_scope.Collectors.Process.{
  ProcessCollector, Progress, no_progress, add_process, then_scan, scan_entries, finish,
  collect_names, collect, read_process, system_time_of,
}

length-keep-snoc :
    {A : Type 0} (p : A → Bool) (xs : List A) (x : A)
    → length (keep p (xs ++ (x ∷ []))) ≡ length (keep p xs) + (if p x then 1 else 0)
length-keep-snoc p [] x = ground arith
length-keep-snoc p (y ∷ xs) x = ground (arith, length-keep-snoc p xs x)

module _ {W : Type 0} ⦃d : Double W⦄ where
  abbrev is_running : ProcessInfo W → Bool
  is_running i = i.state == b'R'

  -- The counter of the loop is the number of running processes in its list.
  abbrev IsCounted : Progress W → Type 0
  IsCounted p = p.running ≡ to_u32 (length (keep is_running p.list))

  add_process-IsCounted :
      (now : ℕ) (o : Option (ProcessInfo W)) (p : Progress W)
      → IsCounted p
      → IsCounted (add_process now o p)
  unfolding add_process to_u32
  add_process-IsCounted now none p h = h
  add_process-IsCounted now (some i) p h =
      let added = length-keep-snoc is_running p.list i in
      elim (Bool-cases (is_running i)) [
        | inl e ↦
            let one : length (keep is_running (p.list ++ (i ∷ [])))
                ≡ length (keep is_running p.list) + 1 =
              added ∙ rw e refl in
            rw (e, one) (omega (arith, h))
        | inr e ↦
            let same : length (keep is_running (p.list ++ (i ∷ [])))
                ≡ length (keep is_running p.list) + 0 =
              added ∙ rw e refl in
            rw (e, same) (omega (arith, h))
      ]

  -- What is said of a snapshot that may not be there.
  abbrev pub IsTallied : Outcome (Result (ProcessSnapshot W)) → Type 0
  IsTallied (throws e) = Unit
  IsTallied (returns (error e)) = Unit
  IsTallied (returns (ok s)) =
      (s.total_processes ≡ to_u32 (length s.process_list))
      × (s.running_processes ≡ to_u32 (length (keep is_running s.process_list)))

  abbrev Counts : Outcome (Progress W) → Type 0
  Counts (throws e) = Unit
  Counts (returns p) = IsCounted p

  then_scan-Counts :
      (o : Outcome (Option (ProcessInfo W))) (k : Option (ProcessInfo W) → Outcome (Progress W))
      → ((i : Option (ProcessInfo W)) → Counts (k i))
      → Counts (then_scan o k)
  unfolding then_scan
  then_scan-Counts (throws e) k h = tt
  then_scan-Counts (returns i) k h = h i

  scan_entries-Counts :
      (fs : Reader) (clock : Text → ℕ) (c : ProcessCollector) (total : ℕ) (ns : List Text)
      (p : Progress W)
      → IsCounted p
      → Counts (scan_entries fs clock c total ns p)
  unfolding scan_entries
  scan_entries-Counts fs clock c total [] p h = h
  scan_entries-Counts fs clock c total (n ∷ ns) p h =
      then_scan-Counts (read_process fs c total n) _ (λ i.
        scan_entries-Counts fs clock c total ns (add_process (clock n) i p)
          (add_process-IsCounted (clock n) i p h))

-- A snapshot that is returned counts its own list: all of it, and the processes in state R, both
-- as 32-bit numbers.
pub collect-IsTallied :
    (W : Type 0) ⦃d : Double W⦄ (fs : Reader) (clock : Text → ℕ) (c : ProcessCollector)
    → IsTallied {W = W} (collect fs clock c).0
unfolding collect collect_names finish to_u32
collect-IsTallied W fs clock c = of_names (fs.list_directory_entries (codes "/proc"))
  where
    total : ℕ
    total = system_time_of (fs.read_file_lines (codes "/proc/stat"))

    of_progress : (o : Outcome (Progress W)) → Counts o → IsTallied {W = W} (finish c total o).0
    of_progress (throws e) h = tt
    of_progress (returns p) h = (refl, h)

    of_names : (r : Result (List Text)) → IsTallied {W = W} (collect_names fs clock c total r).0
    of_names (error e) = tt
    of_names (ok ns) =
        of_progress (scan_entries fs clock c total ns no_progress)
          (scan_entries-Counts fs clock c total ns no_progress (omega arith))
