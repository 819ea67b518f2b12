-- ===== src/Collectors/Disk/Stat.antt =====
-- What the disk collector reads from the stat file of a device.
use sys_scope.Base.{
  ℕ, ◌<◌, ◌≡◌, refl, ap, ◌∷◌, ◌++◌, Option, none, some, arith, Text, codes, starts_with, text_key,
  if◌then◌else◌, u64_mod,
}
use sys_scope.Stream.{open_text}
use sys_scope.Stream.Fields.{
  column, first_column, read_u64-column, read_u64-first_column, space_ahead-column,
}
use sys_scope.Core.Result.{ok, error}
use sys_scope.Platform.Files.{Reader}
use sys_scope.Collectors.Disk.{DiskBlockStats, parse_stats, is_skipped, stats_in, device_stats}

-- The two numbers that no one asks for.
pub record Merged : Type 0 where
  pub reads_merged : ℕ
  pub writes_merged : ℕ

-- A stat file: its numbers in the kernel's order, in padded columns, and what newer kernels add.
abbrev pub stat_text : (ℕ → ℕ) → DiskBlockStats → Merged → Text → Text
stat_text gaps s m rest = first_column (gaps 0) s.reads_completed (
    column (gaps 1) m.reads_merged (
      column (gaps 2) s.read_sectors (
        column (gaps 3) s.read_time_ms (
          column (gaps 4) s.writes_completed (
            column (gaps 5) m.writes_merged (
              column (gaps 6) s.write_sectors (
                column (gaps 7) s.write_time_ms (
                  column (gaps 8) s.io_in_progress
                    (column (gaps 9) s.io_time_ms (32 ∷ rest))))))))))

pub record Fits (s : DiskBlockStats) (m : Merged) : Type 0 where
  pub reads_completed_fits : s.reads_completed < u64_mod
  pub reads_merged_fits : m.reads_merged < u64_mod
  pub read_sectors_fits : s.read_sectors < u64_mod
  pub read_time_ms_fits : s.read_time_ms < u64_mod
  pub writes_completed_fits : s.writes_completed < u64_mod
  pub writes_merged_fits : m.writes_merged < u64_mod
  pub write_sectors_fits : s.write_sectors < u64_mod
  pub write_time_ms_fits : s.write_time_ms < u64_mod
  pub io_in_progress_fits : s.io_in_progress < u64_mod
  pub io_time_ms_fits : s.io_time_ms < u64_mod

parse_stats-stat_text :
    (gaps : ℕ → ℕ) (s : DiskBlockStats) (m : Merged) (rest : Text)
    → Fits s m
    → parse_stats s.timestamp_ns (stat_text gaps s m rest) ≡ s
unfolding parse_stats open_text
parse_stats-stat_text gaps s m rest h =
    let t10 = 32 ∷ rest in
    let t9 = column (gaps 9) s.io_time_ms t10 in
    let t8 = column (gaps 8) s.io_in_progress t9 in
    let t7 = column (gaps 7) s.write_time_ms t8 in
    let t6 = column (gaps 6) s.write_sectors t7 in
    let t5 = column (gaps 5) m.writes_merged t6 in
    let t4 = column (gaps 4) s.writes_completed t5 in
    let t3 = column (gaps 3) s.read_time_ms t4 in
    let t2 = column (gaps 2) s.read_sectors t3 in
    let t1 = column (gaps 1) m.reads_merged t2 in
    rw
      (
        read_u64-first_column (gaps 0) 0 s.reads_completed t1 h.reads_completed_fits
            (space_ahead-column (gaps 1) m.reads_merged t2),
        read_u64-column (gaps 1) 0 m.reads_merged t2 h.reads_merged_fits
            (space_ahead-column (gaps 2) s.read_sectors t3),
        read_u64-column (gaps 2) 0 s.read_sectors t3 h.read_sectors_fits
            (space_ahead-column (gaps 3) s.read_time_ms t4),
        read_u64-column (gaps 3) 0 s.read_time_ms t4 h.read_time_ms_fits
            (space_ahead-column (gaps 4) s.writes_completed t5),
        read_u64-column (gaps 4) 0 s.writes_completed t5 h.writes_completed_fits
            (space_ahead-column (gaps 5) m.writes_merged t6),
        read_u64-column (gaps 5) m.reads_merged m.writes_merged t6 h.writes_merged_fits
            (space_ahead-column (gaps 6) s.write_sectors t7),
        read_u64-column (gaps 6) 0 s.write_sectors t7 h.write_sectors_fits
            (space_ahead-column (gaps 7) s.write_time_ms t8),
        read_u64-column (gaps 7) 0 s.write_time_ms t8 h.write_time_ms_fits
            (space_ahead-column (gaps 8) s.io_in_progress t9),
        read_u64-column (gaps 8) 0 s.io_in_progress t9 h.io_in_progress_fits
            (space_ahead-column (gaps 9) s.io_time_ms t10),
        read_u64-column (gaps 9) 0 s.io_time_ms t10 h.io_time_ms_fits refl,
      )
      refl

-- What the file of the device holds: the counters `s`, or nothing that can be read.
abbrev pub Holds : Reader → ℕ → Text → Option DiskBlockStats → Type 0
Holds fs now n none =
    (m : Text) × (fs.read_file_contents (codes "/sys/block/" ++ (n ++ codes "/stat")) ≡ error m)
Holds fs now n (some s) =
    (gaps : ℕ → ℕ) × (m : Merged) × (rest : Text) × (fs.read_file_contents
        (codes "/sys/block/" ++ (n ++ codes "/stat"))
      ≡ ok (stat_text gaps s m rest))
    × Fits s m
    × (s.timestamp_ns ≡ now)

-- The counters of a device that counts: none of a loop or ram device.
abbrev pub seen : (Text → Option DiskBlockStats) → Text → Option DiskBlockStats
seen stat n =
    if starts_with (codes "loop") n
    then none
    else if starts_with (codes "ram") n
    then none
    else stat n

stats_in-Holds :
    (fs : Reader) (now : ℕ) (n : Text) (o : Option DiskBlockStats)
    → Holds fs now n o
    → stats_in now (fs.read_file_contents (codes "/sys/block/" ++ (n ++ codes "/stat"))) ≡ o
unfolding stats_in
stats_in-Holds fs now n none (m, e) = rw e refl
stats_in-Holds fs now n (some s) (gaps, m, rest, e, h, t) =
    rw (e, ← t) (ap some (parse_stats-stat_text gaps s m rest h))

pub device_stats-seen :
    (fs : Reader) (now : ℕ) (stat : Text → Option DiskBlockStats) (n : Text)
    → Holds fs now n (stat n)
    → device_stats fs now n ≡ seen stat n
unfolding device_stats is_skipped
device_stats-seen fs now stat n h = ground (arith, stats_in-Holds fs now n (stat n) h)
