-- ===== src/Core/Timestamp/Tests.antt =====
-- A timestamp on the epoch's first day, in a zone without an offset.
use sys_scope.Base.{
  ℕ, ◌/◌, ◌%◌, ◌≡◌, refl, [], ◌∷◌, arith, codes, pad_zero, to_string, digits_from, replicate,
}
use sys_scope.Util.Clock.{read_numbers}
use sys_scope.Core.Timestamp.{Tm, to_iso_string}
use sys_scope.Core.Timestamp.Iso.{read_numbers-to_iso_string}

abbrev first_day : ℕ → Tm
first_day s = record {
  year = 70;
  mon = 0;
  mday = 1;
  hour = s / 3600 % 24;
  min = s / 60 % 60;
  sec = s % 60;
}

iso_shown : to_iso_string first_day 3_725_042_000_000 ≡ codes "1970-01-01T01:02:05.042"
unfolding to_iso_string pad_zero to_string digits_from replicate
iso_shown = refl

read_numbers-to_iso_string_example :
    read_numbers 7 (to_iso_string first_day 3_725_042_000_000) ≡ 1970 ∷ 1 ∷ 1 ∷ 1 ∷ 2 ∷ 5 ∷ 42 ∷ []
read_numbers-to_iso_string_example =
    read_numbers-to_iso_string first_day 3_725_042_000_000 (record {
      year_short = omega arith;
      mon_short = omega arith;
      mday_short = omega arith;
      hour_short = omega arith;
      min_short = omega arith;
      sec_short = omega arith;
    })
