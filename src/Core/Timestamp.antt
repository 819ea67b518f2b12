-- ===== src/Core/Timestamp.antt =====
-- core/timestamp.hpp and timestamp.cpp. A Timestamp is its nanoseconds since the epoch; the clock and
-- the C library's local time are outside the program.
pub mod Iso
mod Tests
use sys_scope.Base.{
  ℕ, ◌+◌, ◌/◌, ◌%◌, Bool, not, ◌∷◌, ◌++◌, Text, take, pad_zero, ltb, leb, ◌==◌, Double,
}

-- The fields of `std::tm` that are printed. The year counts from 1900, the month from 0.
pub record Tm : Type 0 where
  pub year : ℕ
  pub mon : ℕ
  pub mday : ℕ
  pub hour : ℕ
  pub min : ℕ
  pub sec : ℕ

pub seconds : {W : Type 0} ⦃d : Double W⦄ → ℕ → W
seconds ⦃d⦄ ns_since_epoch = d.div (d.of_u64 ns_since_epoch) (d.lit 1_000_000_000 0)

-- The comparison operators.
equal : ℕ → ℕ → Bool
equal a b = a == b

not_equal : ℕ → ℕ → Bool
not_equal a b = not (a == b)

less : ℕ → ℕ → Bool
less a b = ltb a b

less_equal : ℕ → ℕ → Bool
less_equal a b = leb a b

greater : ℕ → ℕ → Bool
greater a b = ltb b a

greater_equal : ℕ → ℕ → Bool
greater_equal a b = leb b a

-- `"%04d-%02d-%02dT%02d:%02d:%02d.%03d"`
pub date_text : Tm → ℕ → Text
date_text t ms =
    pad_zero 4 (t.year + 1900)
    ++ (b'-'
        ∷ (pad_zero 2 (t.mon + 1)
            ++ (b'-'
                ∷ (pad_zero 2 t.mday
                    ++ (b'T'
                        ∷ (pad_zero 2 t.hour
                            ++ (b':'
                                ∷ (pad_zero 2 t.min
                                    ++ (b':' ∷ (pad_zero 2 t.sec ++ (b'.' ∷ pad_zero 3 ms)))))))))))

-- `localtime` is the C library's localtime_r on whole seconds.
pub to_iso_string : (ℕ → Tm) → ℕ → Text
unfolding date_text
to_iso_string localtime ns_since_epoch = take 63 (
    date_text (localtime (ns_since_epoch / 1_000_000_000))
      (ns_since_epoch % 1_000_000_000 / 1_000_000))
