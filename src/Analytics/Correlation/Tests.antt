-- ===== src/Analytics/Correlation/Tests.antt =====
-- The theorems on the analysis at an overheated machine.
use sys_scope.Base.{Micro-IsOrdered, ◌≡◌, true, false, [], codes, All, micro_double}
use sys_scope.Samples.{overheated}
use sys_scope.Analytics.Correlation.{analyze}
use sys_scope.Analytics.Correlation.Justified.{IsJustified, analyze-IsJustified}
use sys_scope.Analytics.Correlation.Rules.{said, conditions, conditions-analyze}

analyze-IsJustified_example : All IsJustified (analyze overheated)
analyze-IsJustified_example = analyze-IsJustified overheated

conditions-analyze_example :
    conditions (analyze overheated)
    ≡ said true (codes "THERMAL THROTTLING") (
        said true
          (codes "MEMORY CONTENTION & PRESSURE")
          (said false (codes "I/O BOTTLENECK") (said false (codes "CPU SCHEDULING CONTENTION") [])))
conditions-analyze_example = conditions-analyze Micro-IsOrdered overheated
