-- ===== src/Util.antt =====
-- util/format.hpp and format.cpp: numbers as texts. `snprintf` writes into 64 bytes, the last of which
-- ends the text.
pub mod Scale
pub mod Clock
mod Tests
use sys_scope.Base.{
  ℕ, zero, suc, ◌+◌, ◌*◌, ◌/◌, ◌%◌, Bool, true, false, ◌&&◌, List, [], ◌∷◌, ◌++◌, Option, none,
  some, Text, codes, take, get_elem?, pad_zero, to_string, ltb, leb, pos_part, if◌then◌else◌,
  Double, ge,
}

-- `char buf[64]; snprintf(buf, sizeof(buf), …); return std::string(buf);`
abbrev pub printed : Text → Text
printed s = take 63 s

abbrev pub byte_units : List Text
byte_units = codes "B" ∷ codes "KB" ∷ codes "MB" ∷ codes "GB" ∷ codes "TB" ∷ []

abbrev pub rate_units : List Text
rate_units = codes "B/s" ∷ codes "KB/s" ∷ codes "MB/s" ∷ codes "GB/s" ∷ []

-- `units[unit_idx]`
abbrev pub unit_at : List Text → ℕ → Text
unit_at units i = elim (get_elem? units i) [ none ↦ [] | some u ↦ u ]

-- `hours:minutes:secs`, each of at least two digits.
pub clock_text : ℕ → Text
clock_text total_sec =
    pad_zero 2 (total_sec / 3600)
    ++ (b':' ∷ (pad_zero 2 (total_sec % 3600 / 60) ++ (b':' ∷ pad_zero 2 (total_sec % 60))))

module _ {W : Type 0} ⦃d : Double W⦄ where
  open d use {lit, of_u64, div, print, trunc}

  unfoldable pub format_metric : W → ℕ → Text
  format_metric value precision = printed (print precision value)

  -- `b >= 1024.0 && unit_idx < top`
  abbrev pub too_large : ℕ → W → ℕ → Bool
  too_large top b unit_idx = ge b (lit 1024 0) && ltb unit_idx top

  -- `while (b >= 1024.0 && unit_idx < top) { b /= 1024.0; unit_idx++; }` on fuel.
  pub scale_loop : ℕ → ℕ → W → ℕ → W × ℕ
  scale_loop zero top b unit_idx = (b, unit_idx)
  scale_loop (suc fuel) top b unit_idx =
      let rest = scale_loop fuel top (div b (lit 1024 0)) (unit_idx + 1) in
      if too_large top b unit_idx then rest else (b, unit_idx)

  -- `"%.2f %s"`
  pub scaled : List Text → W × ℕ → Text
  scaled units (b, unit_idx) = printed (print 2 b ++ (32 ∷ unit_at units unit_idx))

  pub format_bytes_per_sec : W → Text
  unfolding scale_loop scaled
  format_bytes_per_sec bytes_per_sec = scaled rate_units (scale_loop 4 3 bytes_per_sec 0)

  -- The cast to uint64_t is defined for what is not negative.
  pub format_duration_seconds : W → Text
  unfolding clock_text
  format_duration_seconds seconds = printed (clock_text (pos_part (trunc seconds)))

pub format_bytes : (W : Type 0) ⦃d : Double W⦄ → ℕ → Text
unfolding scale_loop scaled
format_bytes W ⦃d⦄ bytes = scaled {W = W} byte_units (scale_loop 5 4 (d.of_u64 bytes) 0)

pub format_frequency_khz : (W : Type 0) ⦃d : Double W⦄ → ℕ → Text
format_frequency_khz W ⦃d⦄ khz =
    if leb 1000000 khz
    then printed (d.print 2 (d.div (d.of_u64 khz) (d.lit 1000000 0)) ++ codes " GHz")
    else if leb 1000 khz
    then printed (d.print 0 (d.div (d.of_u64 khz) (d.lit 1000 0)) ++ codes " MHz")
    else printed (to_string khz ++ codes " kHz")
