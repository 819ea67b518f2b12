-- ===== src/Collectors/Memory/Tests.antt =====
-- The theorems on the memory collector at a small /proc/meminfo.
use sys_scope.Base.{
  ℕ, ◌≡◌, refl, Bool, true, false, not, ◌&&◌, is_space, List, [], ◌∷◌, map, arith, Text, codes, All,
  Micro, micro_double,
}
use sys_scope.Stream.RoundTrip.{NoSpace}
use sys_scope.Samples.{uniform}
use sys_scope.Collectors.Memory.{collect}
use sys_scope.Collectors.Memory.Laws.{
  Entry, IsEntry, meminfo_line, last_bytes, available_bytes_of, HasSizes, collect-meminfo,
}

abbrev entry : Text → ℕ → ℕ → Entry
entry key size gap = record { key = key; size = size; gap = gap; in_kb = true }

-- The lines of a kernel, padded to one column, and one that counts pages.
abbrev entries : List Entry
entries =
    entry (codes "MemTotal") 16384000 6
    ∷ entry (codes "MemFree") 4096000 8
    ∷ entry (codes "MemAvailable") 8192000 3
    ∷ record (entry (codes "HugePages_Total") 0 5) { in_kb = false }
    ∷ []

-- Whether a text holds no space, and that a text that passes the test holds none.
abbrev is_word : Text → Bool
is_word [] = true
is_word (c ∷ s) = not (is_space c) && is_word s

is_word-NoSpace : (s : Text) → is_word s ≡ true → NoSpace s
is_word-NoSpace [] h = tt
is_word-NoSpace (c ∷ s) h = (ground (arith, h), is_word-NoSpace s (ground (arith, h)))

entries-IsEntry : All IsEntry entries
entries-IsEntry = (
  (is_word-NoSpace (codes "MemTotal") refl, omega arith),
  (
    (is_word-NoSpace (codes "MemFree") refl, omega arith),
    (
      (is_word-NoSpace (codes "MemAvailable") refl, omega arith),
      ((is_word-NoSpace (codes "HugePages_Total") refl, omega arith), tt),
    ),
  ),
)

collect-meminfo_example :
    HasSizes
      (collect {W = Micro} (uniform (map meminfo_line entries) [] []))
      (last_bytes 0 (codes "MemTotal") entries)
      (available_bytes_of entries)
      (last_bytes 0 (codes "SwapTotal") entries)
      (last_bytes 0 (codes "SwapFree") entries)
collect-meminfo_example =
    collect-meminfo Micro (uniform (map meminfo_line entries) [] []) entries entries-IsEntry refl
