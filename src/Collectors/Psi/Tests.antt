-- ===== src/Collectors/Psi/Tests.antt =====
-- The theorem on the pressure lines at a line of a machine that stalls on memory.
use sys_scope.Base.{◌≡◌, refl, ◌∷◌, ◌++◌, [], arith, codes, Micro, micro_double, micro_stod}
use sys_scope.Stream.Fields.{words}
use sys_scope.Collectors.Psi.{parse_pressure_line}
use sys_scope.Collectors.Psi.Line.{pressure_words, parse_pressure_line-values}

parse_pressure_line-values_example :
    parse_pressure_line {W = Micro}
      (b's' ∷ codes "ome" ++ words (pressure_words (codes "6.25") (codes "1") (codes "0.5") 77) [])
    ≡ record { avg10 = 6_250_000; avg60 = 1_000_000; avg300 = 500_000; total_microseconds = 77 }
unfolding micro_stod
parse_pressure_line-values_example =
    parse_pressure_line-values b's' (codes "ome") (codes "6.25") (codes "1") (codes "0.5") 6_250_000
      1_000_000 500_000 77 (refl, (refl, (refl, (refl, tt)))) (refl, (refl, (refl, (refl, tt))))
      (refl, tt) (refl, (refl, (refl, tt))) refl refl refl (omega arith)
