-- ===== src/Analytics/Profiler/Tests.antt =====
-- The theorems on the profiler at three samples.
use sys_scope.Base.{true, List, [], ◌∷◌, Text, codes, Micro, micro_double, Micro-IsOrdered}
use sys_scope.Samples.{uniform}
use sys_scope.Analytics.Profiler.{Samples, profile_command}
use sys_scope.Analytics.Profiler.Report.{IsPercent, profile_command-IsPercent}

abbrev three : Samples Micro
three = record {
  cpu = 20_000_000 ∷ (90_000_000 ∷ (30_000_000 ∷ []));
  rss = 700 ∷ (900 ∷ (800 ∷ []));
  psi_cpu = [];
  psi_mem = [];
  psi_io = [];
}

abbrev stat : List Text
stat = codes "cpu 10 0 5 80 3 1 1 0" ∷ []

abbrev later_stat : List Text
later_stat = codes "cpu 60 0 9 99 4 2 2 0" ∷ []

profile_command-IsPercent_example :
    IsPercent Micro-IsOrdered
      (profile_command true
        (codes "Linux")
        (codes "make")
        5_000_000
        (uniform stat [] [])
        (uniform later_stat [] [] ∷ [])
        (uniform later_stat [] [])).peak_cpu_percent
profile_command-IsPercent_example =
    profile_command-IsPercent Micro-IsOrdered true (codes "Linux") (codes "make") 5_000_000
      (uniform stat [] []) (uniform later_stat [] [] ∷ []) (uniform later_stat [] [])
