-- ===== src/Collectors/Cpu/Parse.antt =====
-- What `parse_counters` and `scan_lines` read from the text of /proc/stat.
use mathlib.Core.List.{append-nil, append_assoc}
use sys_scope.Base.{
  All, true, ◌∙◌, ap, starts_with, text_eq, false, List, codes, ◌+◌, ℕ, ◌<◌, ◌≡◌, refl, [], ◌∷◌,
  ◌++◌, Text, to_string, u64_mod,
}
use sys_scope.Stream.{open_text, reading, read_u64}
use sys_scope.Stream.RoundTrip.{
  space_ahead, NoSpace-to_string, to_string-ne-nil, NoSpace, read_word_lem, read_u64_space,
  read_u64-to_string,
}
use sys_scope.Collectors.Cpu.{Sample, scan_line, scan_lines, no_sample, CpuCounters, parse_counters}

-- A space and the digits of `n` before `rest`.
abbrev field : ℕ → Text → Text
field n rest = 32 ∷ (to_string n ++ rest)

-- A line of /proc/stat as the kernel prints it: the label, more blanks, the eight counters, and what newer
-- kernels add behind a space.
abbrev pub cpu_line : Text → Text → CpuCounters → Text → Text
cpu_line label pad c rest =
    label
    ++ (pad
        ++ field c.user (
            field c.nice (
              field c.system (
                field c.idle
                  (field c.iowait (field c.irq (field c.softirq (field c.steal (32 ∷ rest)))))))))

abbrev pub IsCounters : CpuCounters → Type 0
IsCounters c =
    (c.user < u64_mod)
    × (c.nice < u64_mod)
    × (c.system < u64_mod)
    × (c.idle < u64_mod)
    × (c.iowait < u64_mod)
    × (c.irq < u64_mod)
    × (c.softirq < u64_mod)
    × (c.steal < u64_mod)

read_field :
    (n : ℕ) (rest : Text)
    → n < u64_mod
    → read_u64 0 (reading (field n (32 ∷ rest))) ≡ (n, reading (32 ∷ rest))
read_field n rest h = rw read_u64_space (read_u64-to_string 0 n (32 ∷ rest) h refl)

abbrev pub IsBlank : Text → Type 0
IsBlank = All λ c. c ≡ 32

read_u64_blank :
    (pad s : Text) → IsBlank pad → read_u64 0 (reading (pad ++ s)) ≡ read_u64 0 (reading s)
read_u64_blank [] s h = refl
read_u64_blank (c ∷ pad) s h = rw (h.0, read_u64_space) (read_u64_blank pad s h.1)

space_ahead_blank : (pad s : Text) → IsBlank pad → space_ahead (pad ++ (32 ∷ s)) ≡ true
space_ahead_blank [] s h = refl
space_ahead_blank (c ∷ pad) s h = rw h.0 refl

-- The counters that the kernel prints are the counters that the collector reads.
parse_counters-cpu_line :
    (a : ℕ) (label pad : Text) (c : CpuCounters) (rest : Text)
    → NoSpace (a ∷ label)
    → IsBlank pad
    → IsCounters c
    → parse_counters (cpu_line (a ∷ label) pad c rest) ≡ (a ∷ label, c)
unfolding parse_counters open_text
parse_counters-cpu_line a label pad c rest w b h =
    rw
      (
        read_word_lem [] a label _ w (space_ahead_blank pad _ b),
        read_u64_blank pad _ b,
        read_field c.user _ h.0,
        read_field c.nice _ h.1,
        read_field c.system _ h.2,
        read_field c.idle _ h.3,
        read_field c.iowait _ h.4,
        read_field c.irq _ h.5,
        read_field c.softirq _ h.6,
        read_field c.steal _ h.7,
      )
      refl

abbrev core_line : ℕ → CpuCounters → Text → Text
core_line i c rest = cpu_line (codes "cpu" ++ to_string i) [] c rest

scan_line-aggregate :
    (pad : Text) (c : CpuCounters) (rest : Text) (s : Sample)
    → IsBlank pad
    → IsCounters c
    → scan_line (cpu_line (codes "cpu") pad c rest) s ≡ record s { aggregate = c }
unfolding scan_line starts_with text_eq
scan_line-aggregate pad c rest s b h =
    rw (parse_counters-cpu_line b'c' (codes "pu") pad c rest (refl, (refl, (refl, tt))) b h) refl

scan_line-core :
    (i : ℕ) (c : CpuCounters) (rest : Text) (s : Sample)
    → IsCounters c
    → scan_line (core_line i c rest) s ≡ record s { cores = s.cores ++ (c ∷ []) }
unfolding scan_line starts_with text_eq
scan_line-core i c rest s h =
    rw
      (
        parse_counters-cpu_line b'c' (codes "pu" ++ to_string i) [] c rest
            (refl, (refl, (refl, NoSpace-to_string i))) tt h,
        to_string-ne-nil i,
      )
      refl

scan_line-other : (l : Text) (s : Sample) → starts_with (codes "cpu") l ≡ false → scan_line l s ≡ s
unfolding scan_line
scan_line-other l s h = rw h

-- The lines of the cores, numbered from `i`.
abbrev pub core_lines : ℕ → List CpuCounters → Text → List Text
core_lines i [] rest = []
core_lines i (c ∷ cs) rest = core_line i c rest ∷ core_lines (i + 1) cs rest

abbrev pub IsOther : List Text → Type 0
IsOther = All λ l. starts_with (codes "cpu") l ≡ false

scan_lines-other : (ls : List Text) (s : Sample) → IsOther ls → scan_lines ls s ≡ s
unfolding scan_lines
scan_lines-other [] s h = refl
scan_lines-other (l ∷ ls) s h = rw (scan_line-other l s h.0, scan_lines) (scan_lines-other ls s h.1)

scan_lines-core_lines :
    (i : ℕ) (cs : List CpuCounters) (rest : Text) (others : List Text) (s : Sample)
    → All IsCounters cs
    → IsOther others
    → scan_lines (core_lines i cs rest ++ others) s ≡ record s { cores = s.cores ++ cs }
unfolding scan_lines
scan_lines-core_lines i [] rest others s h o = rw append-nil (scan_lines-other others s o)
scan_lines-core_lines i (c ∷ cs) rest others s h o =
    ap (scan_lines (core_lines (i + 1) cs rest ++ others)) (scan_line-core i c rest s h.0)
    ∙ scan_lines-core_lines (i + 1) cs rest others (record s { cores = s.cores ++ (c ∷ []) }) h.1 o
    ∙ ap (λ xs. record s { cores = xs }) (append_assoc s.cores (c ∷ []) cs)

-- Reading the lines of a /proc/stat that has the aggregate line, a line for each core, and lines that
-- do not begin with "cpu" gives back the printed counters, the cores in their order; every counter
-- is below 2^64.
pub scan_lines-stat :
    (pad : Text) (c : CpuCounters) (cs : List CpuCounters) (rest : Text) (others : List Text)
    → IsBlank pad
    → IsCounters c
    → All IsCounters cs
    → IsOther others
    → scan_lines (cpu_line (codes "cpu") pad c rest ∷ (core_lines 0 cs rest ++ others)) no_sample
      ≡ record { aggregate = c; cores = cs }
unfolding scan_lines
scan_lines-stat pad c cs rest others b h k o =
    ap (scan_lines (core_lines 0 cs rest ++ others)) (scan_line-aggregate pad c rest no_sample b h)
    ∙ scan_lines-core_lines 0 cs rest others (record no_sample { aggregate = c }) k o
