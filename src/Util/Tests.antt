-- ===== src/Util/Tests.antt =====
-- The formats on concrete numbers.
use sys_scope.Base.{
  ℕ, ◌≡◌, refl, arith, codes, Micro, micro_double, micro_print, to_string, digits_from, pad_zero,
  replicate, ge, take, ◌∷◌, ◌++◌,
}
use sys_scope.Util.{format_bytes, format_duration_seconds, format_frequency_khz}
use sys_scope.Util.Scale.{IsScaled, divided, unit_name, format_bytes-IsScaled}
use sys_scope.Util.Clock.{read_duration, read_duration-format_duration_seconds}

bytes_shown : format_bytes Micro 1536 ≡ codes "1.50 KB"
unfolding format_bytes ge micro_print to_string digits_from
bytes_shown = refl

khz_shown : format_frequency_khz Micro 2_400_000 ≡ codes "2.40 GHz"
unfolding format_frequency_khz micro_print to_string digits_from
khz_shown = refl

duration_shown : format_duration_seconds {W = Micro} 3_725_900_000 ≡ codes "01:02:05"
unfolding format_duration_seconds pad_zero to_string digits_from replicate
duration_shown = refl

format_bytes-IsScaled_example :
    (n : ℕ) × IsScaled {W = Micro} 4 0 (5_000_000_000_000_000) n
    × (format_bytes Micro 5_000_000_000
        ≡ take 63
            (micro_print 2 (divided {W = Micro} n 5_000_000_000_000_000) ++ (32 ∷ unit_name n)))
format_bytes-IsScaled_example = format_bytes-IsScaled Micro 5_000_000_000

read_duration-format_duration_seconds_example :
    read_duration (format_duration_seconds {W = Micro} 3_725_900_000) ≡ 3725
read_duration-format_duration_seconds_example =
    read_duration-format_duration_seconds Micro 3_725_900_000 (omega arith)
