-- ===== src/Collectors/Psi.antt =====
-- collectors/psi.hpp and psi.cpp: the pressure stall files of /proc/pressure.
pub mod Line
mod Tests
use sys_scope.Base.{
  ℕ, zero, suc, List, [], ◌∷◌, Option, none, some, Text, codes, text_eq, starts_with, find_char,
  take, drop, length, if◌then◌else◌, Double,
}
use sys_scope.Stream.{Stream, open_text, read_word, stoull}
use sys_scope.Core.Result.{Result, ok, error}
use sys_scope.Core.Snapshot.{PsiSnapshot, PsiPressureValues, blank_psi, blank_pressure}
use sys_scope.Platform.Files.{Reader}

-- `x = f(…)`, where an exception leaves the variable as it was.
abbrev or_keep : {A : Type 0} → A → Option A → A
or_keep old none = old
or_keep old (some v) = v

module _ {W : Type 0} ⦃d : Double W⦄ where
  open d use {stod}

  pub store : Text → Text → PsiPressureValues W → PsiPressureValues W
  store key val vals =
      if text_eq key (codes "avg10")
      then record vals { avg10 = or_keep vals.avg10 (stod val) }
      else if text_eq key (codes "avg60")
      then record vals { avg60 = or_keep vals.avg60 (stod val) }
      else if text_eq key (codes "avg300")
      then record vals { avg300 = or_keep vals.avg300 (stod val) }
      else if text_eq key (codes "total")
      then record vals { total_microseconds = or_keep vals.total_microseconds (stoull val) }
      else vals

  pub store_at : Text → Option ℕ → PsiPressureValues W → PsiPressureValues W
  unfolding store
  store_at token none vals = vals
  store_at token (some eq) vals = store (take eq token) (drop (suc eq) token) vals

  -- A token without '=' or with an unknown key changes nothing.
  pub read_token : Text → PsiPressureValues W → PsiPressureValues W
  unfolding store_at
  read_token token vals = store_at token (find_char b'=' token) vals

  -- `while (ss >> token)`, on fuel. Each round takes a character at least.
  pub read_tokens : ℕ → Text → Stream → PsiPressureValues W → PsiPressureValues W
  read_tokens zero token s vals = vals
  read_tokens (suc f) token s vals =
      let (t, s') = read_word token s in
      let rest = read_tokens f t s' (read_token t vals) in if s'.failed then vals else rest

  pub parse_pressure_line : Text → PsiPressureValues W
  unfolding read_tokens
  parse_pressure_line line =
      let (prefix, s) = read_word [] (open_text line) in
      read_tokens (suc (length line)) [] s blank_pressure

  -- The lines of a file, `some` and `full`; a later line of a kind replaces an earlier one.
  read_cpu_lines : List Text → PsiSnapshot W → PsiSnapshot W
  read_cpu_lines [] s = s
  read_cpu_lines (l ∷ ls) s =
      read_cpu_lines ls
        (if starts_with (codes "some") l then record s { cpu_some = parse_pressure_line l } else s)

  read_memory_lines : List Text → PsiSnapshot W → PsiSnapshot W
  read_memory_lines [] s = s
  read_memory_lines (l ∷ ls) s = read_memory_lines ls (
      if starts_with (codes "some") l
      then record s { memory_some = parse_pressure_line l }
      else if starts_with (codes "full") l
      then record s { memory_full = parse_pressure_line l }
      else s)

  read_io_lines : List Text → PsiSnapshot W → PsiSnapshot W
  read_io_lines [] s = s
  read_io_lines (l ∷ ls) s = read_io_lines ls (
      if starts_with (codes "some") l
      then record s { io_some = parse_pressure_line l }
      else if starts_with (codes "full") l
      then record s { io_full = parse_pressure_line l }
      else s)

  -- A file that cannot be read leaves its part blank.
  on_lines :
      (List Text → PsiSnapshot W → PsiSnapshot W)
      → Result (List Text)
      → PsiSnapshot W
      → PsiSnapshot W
  on_lines f (error e) s = s
  on_lines f (ok ls) s = f ls s

  pub collect : Reader → Result (PsiSnapshot W)
  unfolding on_lines
  collect fs =
      let s0 =
        on_lines read_cpu_lines (fs.read_file_lines (codes "/proc/pressure/cpu")) blank_psi in
      let s1 = on_lines read_memory_lines (fs.read_file_lines (codes "/proc/pressure/memory")) s0 in
      ok (on_lines read_io_lines (fs.read_file_lines (codes "/proc/pressure/io")) s1)
