-- ===== src/Collectors/Memory/Laws.antt =====
-- What the memory collector reads from /proc/meminfo and how its figures add up.
use sys_scope.Base.{
  ℕ, ◌-◌, ◌*◌, ◌<◌, ◌≡◌, refl, ap, ◌∙◌, Bool, true, false, List, [], ◌∷◌, ◌++◌, map, arith, Text,
  codes, All, text_eq, text_key, pop_back_if, lookup, insert, lookup-insert, ltb, ◌==◌, ◌&&◌,
  if◌then◌else◌, u64_mod, mul_u64, add_u64, Double, IsOrdered, not-lt-min_of,
}
use sys_scope.Stream.{reading, open_text, read_word}
use sys_scope.Stream.RoundTrip.{NoSpace, space_ahead, read_word_lem}
use sys_scope.Stream.Fields.{column, read_u64-column, space_ahead-column}
use sys_scope.Core.Result.{Result, ok, error}
use sys_scope.Core.Snapshot.{MemorySnapshot}
use sys_scope.Platform.Files.{Reader}
use sys_scope.Collectors.Memory.{
  Fields, read_field, read_fields, field_of, available_of, used_of, utilization, snapshot_of,
  collect, of_lines,
}

-- A line of /proc/meminfo: its key and its number, the blanks that pad the column beyond the first, and
-- whether the unit follows, which a line that counts pages does not have.
pub record Entry : Type 0 where
  pub key : Text
  pub size : ℕ
  pub gap : ℕ
  pub in_kb : Bool

abbrev pub unit_of : Bool → Text
unit_of true = codes " kB"
unit_of false = []

abbrev pub meminfo_line : Entry → Text
meminfo_line e = e.key ++ (b':' ∷ column e.gap e.size (unit_of e.in_kb))

-- A key without spaces, and a number whose 1024-fold fits in 64 bits.
abbrev pub IsEntry : Entry → Type 0
IsEntry e = NoSpace e.key × (e.size * 1024 < u64_mod)

-- The bytes of the last entry with the key, and `before` if there is none.
abbrev pub last_bytes : ℕ → Text → List Entry → ℕ
last_bytes before key [] = before
last_bytes before key (e ∷ es) =
    last_bytes (if text_eq e.key key then e.size * 1024 else before) key es

pop_back_if-append : (c : ℕ) (s : Text) → pop_back_if c (s ++ (c ∷ [])) ≡ s
unfolding pop_back_if
pop_back_if-append c [] = ground arith
pop_back_if-append c (x ∷ []) = ground arith
pop_back_if-append c (x ∷ y ∷ s) = ap (◌∷◌ x) (pop_back_if-append c (y ∷ s))

NoSpace-colon : (s : Text) → NoSpace s → NoSpace (s ++ (b':' ∷ []))
NoSpace-colon [] h = (refl, tt)
NoSpace-colon (c ∷ s) h = (h.0, NoSpace-colon s h.1)

read_key :
    (key rest : Text)
    → NoSpace key
    → space_ahead rest ≡ true
    → read_word [] (reading (key ++ (b':' ∷ rest))) ≡ (key ++ (b':' ∷ []), reading rest)
read_key [] rest h e = read_word_lem [] b':' [] rest (refl, tt) e
read_key (c ∷ key) rest h e =
    rw (colon_apart key rest)
      (read_word_lem [] c (key ++ (b':' ∷ [])) rest (h.0, NoSpace-colon key h.1) e)
  where
    colon_apart : (s t : Text) → s ++ (b':' ∷ t) ≡ (s ++ (b':' ∷ [])) ++ t
    colon_apart [] t = refl
    colon_apart (x ∷ s) t = ap (◌∷◌ x) (colon_apart s t)

space_ahead-unit_of : (b : Bool) → space_ahead (unit_of b) ≡ true
space_ahead-unit_of true = refl
space_ahead-unit_of false = refl

read_field-line :
    (e : Entry) (fields : Fields)
    → IsEntry e
    → read_field (meminfo_line e) fields ≡ insert e.key (e.size * 1024) fields
unfolding read_field open_text mul_u64
read_field-line e fields h =
    let unit = unit_of e.in_kb in
    rw
      (
        read_key e.key _ h.0 (space_ahead-column e.gap e.size unit),
        read_u64-column e.gap 0 e.size unit (omega (arith, h.1)) (space_ahead-unit_of e.in_kb),
        pop_back_if-append b':' e.key,
      )
      (ap (λ v. insert e.key v fields) (omega (arith, h.1)))

field_of-insert :
    (k key : Text) (v : ℕ) (fields : Fields)
    → field_of (insert k v fields) key ≡ (if text_eq k key then v else field_of fields key)
unfolding field_of
field_of-insert k key v fields = ground (arith, lookup-insert k key v fields)

read_fields-lines :
    (es : List Entry) (fields : Fields) (key : Text)
    → All IsEntry es
    → field_of (read_fields (map meminfo_line es) fields) key
      ≡ last_bytes (field_of fields key) key es
unfolding read_fields
read_fields-lines [] fields key h = refl
read_fields-lines (e ∷ es) fields key h =
    ap (λ f. field_of (read_fields (map meminfo_line es) f) key) (read_field-line e fields h.0)
    ∙ (read_fields-lines es (insert e.key (e.size * 1024) fields) key h.1
        ∙ ap (λ b. last_bytes b key es) (field_of-insert e.key key (e.size * 1024) fields))

-- The fields read from the lines of a meminfo file are 1024 times the printed kB, for every key: of
-- the last line with the key, and 0 where no line has it. The bytes must fit in 64 bits.
field_of-read_fields :
    (es : List Entry) (key : Text)
    → All IsEntry es
    → field_of (read_fields (map meminfo_line es) []) key ≡ last_bytes 0 key es
unfolding lookup field_of
field_of-read_fields es key h = read_fields-lines es [] key h

-- What is available of the sizes of the last entries.
abbrev pub available_bytes_of : List Entry → ℕ
available_bytes_of es =
    if last_bytes 0 (codes "MemAvailable") es == 0 && ltb 0 (last_bytes 0 (codes "MemTotal") es)
    then add_u64 (add_u64 (last_bytes 0 (codes "MemFree") es) (last_bytes 0 (codes "Buffers") es))
        (last_bytes 0 (codes "Cached") es)
    else last_bytes 0 (codes "MemAvailable") es

used_of_lem : (total left : ℕ) → used_of total left ≡ total - left
unfolding used_of
used_of_lem total left = ground arith

available_of-read_fields :
    (es : List Entry)
    → All IsEntry es
    → available_of (read_fields (map meminfo_line es) []) ≡ available_bytes_of es
unfolding available_of
available_of-read_fields es h =
    rw
      (
        field_of-read_fields es (codes "MemAvailable") h,
        field_of-read_fields es (codes "MemTotal") h,
        field_of-read_fields es (codes "MemFree") h,
        field_of-read_fields es (codes "Buffers") h,
        field_of-read_fields es (codes "Cached") h,
      )
      refl

-- Whether the result is a snapshot with these sizes.
abbrev pub HasSizes : {W : Type 0} → Result (MemorySnapshot W) → ℕ → ℕ → ℕ → ℕ → Type 0
HasSizes (error e) total available swap_total swap_free = ⊥
HasSizes (ok s) total available swap_total swap_free =
    (s.total_bytes ≡ total)
    × (s.available_bytes ≡ available)
    × (s.used_bytes ≡ total - available)
    × (s.swap_total_bytes ≡ swap_total)
    × (s.swap_free_bytes ≡ swap_free)
    × (s.swap_used_bytes ≡ swap_total - swap_free)

-- On a /proc/meminfo whose lines are entries that fit, however the numbers are padded and with the unit or
-- without, the collector succeeds. The total, the
-- available bytes and the swap are those of the last entries with their keys (0 without one); what
-- is used is the total less what is available, and 0 where more is available; so for the swap. If
-- MemAvailable is missing or 0 and there is memory, free, buffered and cached bytes count instead.
pub collect-meminfo :
    (W : Type 0) ⦃d : Double W⦄ (fs : Reader) (es : List Entry)
    → All IsEntry es
    → fs.read_file_lines (codes "/proc/meminfo") ≡ ok (map meminfo_line es)
    → HasSizes
        (collect {W = W} fs)
        (last_bytes 0 (codes "MemTotal") es)
        (available_bytes_of es)
        (last_bytes 0 (codes "SwapTotal") es)
        (last_bytes 0 (codes "SwapFree") es)
unfolding collect of_lines snapshot_of
collect-meminfo W fs es h e =
    let total = field_of-read_fields es (codes "MemTotal") h in
    let available = available_of-read_fields es h in
    let swap_total = field_of-read_fields es (codes "SwapTotal") h in
    let swap_free = field_of-read_fields es (codes "SwapFree") h in
    rw (e, total, available, swap_total, swap_free)
      (refl, refl, used_of_lem _ _, refl, refl, used_of_lem _ _)

module _ {W : Type 0} ⦃d : Double W⦄ where
  module _ (laws : IsOrdered W) where
    utilization-capped :
        (used total : ℕ) → d.lt (d.lit 100 0) (utilization {W = W} used total) ≡ false
    unfolding utilization
    utilization-capped used total = ground (
      arith,
      laws.lit-lt 100 0 0,
      not-lt-min_of laws (d.lit 100 0)
          (d.div (d.mul (d.lit 100 0) (d.of_u64 used)) (d.of_u64 total)),
    )

    -- The reported utilization is never above 100 percent.
    pub snapshot_of-capped :
        (f : Fields) → d.lt (d.lit 100 0) (snapshot_of {W = W} f).utilization_percent ≡ false
    unfolding snapshot_of
    snapshot_of-capped f = utilization-capped _ _
