-- ===== src/Collectors/Process/Tests.antt =====
-- The theorems on the process collector at a shell and its child.
use sys_scope.Base.{
  ◌≡◌, refl, [], ◌∷◌, none, some, arith, Text, codes, ℤ, pos, int_key, lookup, Micro, micro_double,
}
use sys_scope.Core.Result.{returns, throws}
use sys_scope.Core.Snapshot.{ProcessInfo, ProcessSnapshot}
use sys_scope.Platform.Files.{Reader}
use sys_scope.Collectors.Process.{system_time_of}
use sys_scope.Collectors.Process.Baseline.{Remembers, collect-Remembers}
use sys_scope.Samples.{uniform}
use sys_scope.Collectors.Process.{fresh, collect}
use sys_scope.Collectors.Process.Fields.{parse_fields, read_stat}
use sys_scope.Collectors.Process.Stat.{StatLine, stat_text, parse_fields-stat_text}
use sys_scope.Collectors.Process.Name.{stat_of, read_stat-name, read_stat-throws}
use sys_scope.Collectors.Process.Tree.{build_process_tree}
use sys_scope.Collectors.Process.Tree.Family.{
  node_of, kids, last_process, build_process_tree-lookup,
}

-- The fields 3 to 26 of a sleeping process with two threads.
abbrev line : StatLine
line = record {
  state = b'S';
  ppid = 1;
  words_5 =
      codes "7"
      ∷ (codes "7"
          ∷ (codes "0"
              ∷ (codes "-1"
                  ∷ (codes "4" ∷ (codes "9" ∷ (codes "0" ∷ (codes "0" ∷ (codes "0" ∷ []))))))));
  utime = 30;
  stime = 12;
  cutime = 0;
  cstime = 0;
  words_18 = codes "20" ∷ (codes "0" ∷ (codes "2" ∷ (codes "0" ∷ [])));
  starttime = 9000;
  vsize = codes "4096000";
  rss = codes "250";
  rsslim = 18_446_744_073_709_551_615;
  startcode = 4_194_304;
}

parse_fields-stat_text_example : parse_fields (stat_text line (codes "0")) ≡ record {
  state = b'S';
  ppid = pos 1;
  utime = 30;
  stime = 12;
  num_threads = 9000;
  vms_bytes = 18_446_744_073_709_551_615;
  rss_pages = 4_194_304;
}
parse_fields-stat_text_example = parse_fields-stat_text line (codes "0") (record {
  state_seen = (refl, tt);
  ppid_fits = omega arith;
  nine = refl;
  are_words_5 = (
    (refl, tt),
    (
      (refl, tt),
      (
        (refl, tt),
        (
          (refl, (refl, tt)),
          ((refl, tt), ((refl, tt), ((refl, tt), ((refl, tt), ((refl, tt), tt))))),
        ),
      ),
    ),
  );
  utime_fits = omega arith;
  stime_fits = omega arith;
  cutime_fits = omega arith;
  cstime_fits = omega arith;
  four = refl;
  are_words_18 = ((refl, (refl, tt)), ((refl, tt), ((refl, tt), ((refl, tt), tt))));
  starttime_fits = omega arith;
  vsize_word = (refl, (refl, (refl, (refl, (refl, (refl, (refl, tt)))))));
  rss_word = (refl, (refl, (refl, tt)));
  rsslim_fits = omega arith;
  startcode_fits = omega arith;
})

read_stat-name_example :
    read_stat (stat_of (codes "7 ") (codes "a) (b") (codes " S 1"))
    ≡ returns (some (codes "a) (b", parse_fields (codes "S 1")))
read_stat-name_example =
    read_stat-name (codes "7 ") (codes "a) (b") 32 (codes "S 1") (refl, (refl, tt))
      (refl, (refl, (refl, (refl, tt))))

read_stat-throws_example :
    read_stat (stat_of (codes "7 ") (codes "sh") []) ≡ throws (codes "basic_string::substr")
read_stat-throws_example = read_stat-throws (codes "7 ") (codes "sh") (refl, (refl, tt))

abbrev process : ℤ → ℤ → Text → ProcessInfo Micro
process pid ppid name = record {
  pid = pid;
  ppid = ppid;
  name = name;
  cmdline = [];
  state = b'S';
  cpu_percent = 0;
  rss_bytes = 0;
  vms_bytes = 0;
  threads = 1;
  utime = 0;
  stime = 0;
  start_time = 0;
}

abbrev two : ProcessSnapshot Micro
two = record {
  total_processes = 2;
  running_processes = 0;
  process_list =
      process (pos 1) (pos 0) (codes "init") ∷ (process (pos 7) (pos 1) (codes "sh") ∷ []);
}

build_process_tree-lookup_example :
    lookup (pos 1) (build_process_tree two)
    ≡ node_of (kids (pos 1) two.process_list) (last_process (pos 1) none two.process_list)
build_process_tree-lookup_example = build_process_tree-lookup two (pos 1)

abbrev one_shell : Reader
one_shell = uniform (codes "cpu 1 2 3 4 5 6 7 8" ∷ []) (codes "7 (sh) R 1") (codes "7" ∷ [])

collect-Remembers_example :
    let (r, c') = collect {W = Micro} one_shell (λ name. 5) (fresh 100) in
    Remembers {W = Micro}
      (fresh 100)
      (system_time_of (one_shell.read_file_lines (codes "/proc/stat")))
      (pos 7)
      r
      c'
collect-Remembers_example = collect-Remembers Micro one_shell (λ name. 5) (fresh 100) (pos 7)
