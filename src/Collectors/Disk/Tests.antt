-- ===== src/Collectors/Disk/Tests.antt =====
-- The theorem on the disk collector at a disk and a loop device, a second apart.
use sys_scope.Base.{
  ◌≡◌, refl, Bool, true, false, starts_with, if◌then◌else◌, List, [], ◌∷◌, none, some, arith, Text,
  codes, text_key, lookup, Micro, micro_double,
}
use sys_scope.Platform.Files.{Reader}
use sys_scope.Samples.{uniform}
use sys_scope.Collectors.Disk.{DiskBlockStats, fresh, collect}
use sys_scope.Collectors.Disk.Stat.{Merged, Fits, seen, stat_text}
use sys_scope.Collectors.Disk.Rates.{
  Grew, GrewFrom, is_listed, kept, rated, HasDevices, collect_twice-rated,
}

abbrev earlier : DiskBlockStats
earlier = record {
  reads_completed = 100;
  read_sectors = 800;
  read_time_ms = 20;
  writes_completed = 30;
  write_sectors = 160;
  write_time_ms = 4;
  io_in_progress = 0;
  io_time_ms = 50;
  timestamp_ns = 1_000_000_000;
}

abbrev later : DiskBlockStats
later = record earlier { reads_completed = 150; io_time_ms = 550; timestamp_ns = 2_000_000_000 }

abbrev merged : Merged
merged = record { reads_merged = 7; writes_merged = 3 }

abbrev names : List Text
names = codes "sda" ∷ codes "loop0" ∷ []

abbrev disks : DiskBlockStats → Reader
disks s = uniform [] (stat_text (λ i. 5) s merged (codes "0 0")) names

earlier-Fits : Fits earlier merged
earlier-Fits = record {
  reads_completed_fits = omega arith;
  reads_merged_fits = omega arith;
  read_sectors_fits = omega arith;
  read_time_ms_fits = omega arith;
  writes_completed_fits = omega arith;
  writes_merged_fits = omega arith;
  write_sectors_fits = omega arith;
  write_time_ms_fits = omega arith;
  io_in_progress_fits = omega arith;
  io_time_ms_fits = omega arith;
}

later-Fits : Fits later merged
later-Fits = record {
  reads_completed_fits = omega arith;
  reads_merged_fits = omega arith;
  read_sectors_fits = omega arith;
  read_time_ms_fits = omega arith;
  writes_completed_fits = omega arith;
  writes_merged_fits = omega arith;
  write_sectors_fits = omega arith;
  write_time_ms_fits = omega arith;
  io_in_progress_fits = omega arith;
  io_time_ms_fits = omega arith;
}

earlier-Grew : Grew earlier later
earlier-Grew = record {
  fits_reads = omega arith;
  fits_writes = omega arith;
  fits_read_sectors = omega arith;
  fits_write_sectors = omega arith;
  fits_io = omega arith;
  fits_time = omega arith;
  reads = omega arith;
  writes = omega arith;
  read_sectors = omega arith;
  write_sectors = omega arith;
  io = omega arith;
  time = omega arith;
}

grew_if :
    (listed loop ram : Bool)
    → GrewFrom
        (if listed then if loop then none else if ram then none else some earlier else none)
        (if loop then none else if ram then none else some later)
grew_if false loop ram = tt
grew_if true true ram = tt
grew_if true false true = tt
grew_if true false false = earlier-Grew

later-Grew : (n : Text) → GrewFrom (kept (λ n. some earlier) names n) (seen (λ n. some later) n)
later-Grew n =
    grew_if (is_listed n names) (starts_with (codes "loop") n) (starts_with (codes "ram") n)

collect_twice-rated_example :
    let c = (collect {W = Micro} (disks earlier) 1_000_000_000 fresh).1 in
    let (r, c') = collect {W = Micro} (disks later) 2_000_000_000 c in
    HasDevices r (rated (λ n. some later) (kept (λ n. some earlier) names) names)
    × (c'.has_previous_state ≡ true)
    × (lookup (codes "sda") c'.previous_disk_states ≡ kept (λ n. some later) names (codes "sda"))
collect_twice-rated_example =
    collect_twice-rated Micro (disks earlier) (disks later) 1_000_000_000 2_000_000_000 fresh
      (λ n. some earlier) (λ n. some later) names names (codes "sda") refl refl
      (λ n. ((λ i. 5), merged, codes "0 0", refl, earlier-Fits, refl))
      (λ n. ((λ i. 5), merged, codes "0 0", refl, later-Fits, refl)) later-Grew
