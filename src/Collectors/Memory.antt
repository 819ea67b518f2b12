-- ===== src/Collectors/Memory.antt =====
-- collectors/memory.hpp and memory.cpp: /proc/meminfo in bytes, and what is derived from it.
pub mod Laws
mod Tests
use sys_scope.Base.{
  ℕ, ◌-◌, ◌<◌, ◌≡◌, Bool, List, [], ◌∷◌, Option, none, some, Text, codes, pop_back_if, Dict, lookup,
  insert, text_key, ltb, ◌==◌, ◌&&◌, if◌then◌else◌, add_u64, mul_u64, Double, min_of,
}
use sys_scope.Stream.{Stream, open_text, read_word, read_u64}
use sys_scope.Core.Result.{Result, ok, error}
use sys_scope.Core.Snapshot.{MemorySnapshot, zero_double}
use sys_scope.Platform.Files.{Reader}

abbrev pub Fields : Type 0
Fields = Dict Text ℕ

-- One line: a key, less a colon at its end, and a number of kB. Other lines change nothing.
pub read_field : Text → Fields → Fields
read_field line fields =
    let (key, s) = read_word [] (open_text line) in
    let (val_kb, s') = read_u64 0 s in
    if s'.failed then fields else insert (pop_back_if b':' key) (mul_u64 val_kb 1024) fields

pub read_fields : List Text → Fields → Fields
read_fields [] fields = fields
read_fields (l ∷ ls) fields = read_fields ls (read_field l fields)

abbrev pub or_zero : Option ℕ → ℕ
or_zero none = 0
or_zero (some n) = n

-- `mem_fields[key]` of a key that is missing is 0.
pub field_of : Fields → Text → ℕ
field_of fields key = or_zero (lookup key fields)

-- Older kernels print no MemAvailable.
pub available_of : Fields → ℕ
available_of fields =
    let available = field_of fields (codes "MemAvailable") in
    if available == 0 && ltb 0 (field_of fields (codes "MemTotal"))
    then add_u64 (add_u64 (field_of fields (codes "MemFree")) (field_of fields (codes "Buffers")))
        (field_of fields (codes "Cached"))
    else available

-- What is used of `total` when `left` is left.
pub used_of : ℕ → ℕ → ℕ
used_of total left = if ltb left total then total - left else 0

module _ {W : Type 0} ⦃d : Double W⦄ where
  open d use {lit, of_u64, mul, div}

  pub utilization : ℕ → ℕ → W
  utilization used total =
      if ltb 0 total
      then min_of (lit 100 0) (div (mul (lit 100 0) (of_u64 used)) (of_u64 total))
      else zero_double

  pub snapshot_of : Fields → MemorySnapshot W
  snapshot_of fields =
      let total = field_of fields (codes "MemTotal") in
      let available = available_of fields in
      let used = used_of total available in
      let swap_total = field_of fields (codes "SwapTotal") in
      let swap_free = field_of fields (codes "SwapFree") in
      record {
        total_bytes = total;
        available_bytes = available;
        free_bytes = field_of fields (codes "MemFree");
        used_bytes = used;
        cached_bytes = field_of fields (codes "Cached");
        buffers_bytes = field_of fields (codes "Buffers");
        swap_total_bytes = swap_total;
        swap_free_bytes = swap_free;
        swap_used_bytes = used_of swap_total swap_free;
        utilization_percent = utilization used total;
      }

  pub of_lines : Result (List Text) → Result (MemorySnapshot W)
  of_lines (error e) = error e
  of_lines (ok ls) = ok (snapshot_of (read_fields ls []))

  pub collect : Reader → Result (MemorySnapshot W)
  unfolding of_lines
  collect fs = of_lines (fs.read_file_lines (codes "/proc/meminfo"))
