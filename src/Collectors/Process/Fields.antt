-- ===== src/Collectors/Process/Fields.antt =====
-- collectors/process.cpp: the name and the fields that are read from the text of /proc/[pid]/stat.
use sys_scope.Base.{
  ℕ, zero, suc, ◌+◌, ◌-◌, [], Option, none, some, Text, codes, find_char, rfind_char, substr,
  substr_from, ℤ, pos, leb, if◌then◌else◌,
}
use sys_scope.Stream.{Stream, open_text, read_word, read_char, read_u64, read_int}
use sys_scope.Core.Result.{Outcome, returns, throws}

-- `for (int i = 0; i < n; ++i) { std::string dummy; ss >> dummy; }`
unfoldable pub skip_words : ℕ → Stream → Stream
skip_words zero s = s
skip_words (suc n) s = skip_words n (read_word [] s).1

-- What is read behind the closing parenthesis.
pub record StatFields : Type 0 where
  pub state : ℕ
  pub ppid : ℤ
  pub utime : ℕ
  pub stime : ℕ
  pub num_threads : ℕ
  pub vms_bytes : ℕ
  pub rss_pages : ℕ

unfoldable pub parse_fields : Text → StatFields
parse_fields rest =
    let (state, s1) = read_char b'R' (open_text rest) in
    let (ppid, s2) = read_int (pos 0) s1 in
    let (utime, s3) = read_u64 0 (skip_words 9 s2) in
    let (stime, s4) = read_u64 0 s3 in
    let (cutime, s5) = read_u64 0 s4 in
    let (cstime, s6) = read_u64 0 s5 in
    let (num_threads, s7) = read_u64 0 (skip_words 4 s6) in
    let (vms, s8) = read_u64 0 (skip_words 2 s7) in
    let (rss_pages, s9) = read_u64 0 s8 in
    record {
      state = state;
      ppid = ppid;
      utime = utime;
      stime = stime;
      num_threads = num_threads;
      vms_bytes = vms;
      rss_pages = rss_pages;
    }

-- The name and the fields of a stat file; `substr` may throw.
unfoldable pub cut_fields : Option Text → Option Text → Outcome (Option (Text × StatFields))
cut_fields (some name) (some rest) = returns (some (name, parse_fields rest))
cut_fields (some name) none = throws (codes "basic_string::substr")
cut_fields none rest = throws (codes "basic_string::substr")

unfoldable pub cut_stat : Text → Option ℕ → Option ℕ → Outcome (Option (Text × StatFields))
unfolding cut_fields
cut_stat text none close = returns none
cut_stat text (some o) none = returns none
cut_stat text (some o) (some c) =
    if leb c o
    then returns none
    else cut_fields (substr text (o + 1) (c - o - 1)) (substr_from text (c + 2))

-- `returns none` is `continue`: the parentheses are missing or in the wrong order.
unfoldable pub read_stat : Text → Outcome (Option (Text × StatFields))
unfolding cut_stat
read_stat text = cut_stat text (find_char b'(' text) (rfind_char b')' text)
