-- ===== src/Collectors/Network/Rates.antt =====
-- The rates that the network collector reports between two calls.
use sys_scope.Base.{
  ℕ, ◌-◌, ◌≤◌, ◌<◌, ◌≡◌, refl, ap, ◌∙◌, inl, inr, Bool-cases, true, List, [], ◌∷◌, ◌++◌, map,
  Option, none, some, arith, Text, codes, text_eq, text_key, lookup, All, Lacks, find_char-first,
  find_char-Lacks, take-length, if◌then◌else◌, ltb, sub_u64-eq-sub, u64_mod, Double,
}
use sys_scope.Core.Result.{ok}
use sys_scope.Core.Snapshot.{NetworkInterfaceInfo, zero_double}
use sys_scope.Platform.Files.{Reader}
use sys_scope.Collectors.Network.{
  NetworkInterfaceState, NetworkCollector, parse_line, split_line, named_state, trim_left,
  interface_info, idle_info, rated_info, seconds_of, previous_of, collect,
}
use sys_scope.Collectors.Network.Parse.{
  Unused, Fits, IsBlank, IsInterface, counters_text, parse_line-counters,
}
use sys_scope.Collectors.Network.Baseline.{
  parsed, parsed-cons, last_state, reported, HasInterfaces, collect-interfaces,
}

-- A line of /proc/net/dev: of the heading, of the loopback, or of an interface.
pub data DevLine : Type 0 where
  heading : Text → DevLine
  loopback : (pad rest : Text) → DevLine
  interface :
      (pad name : Text) (gaps : ℕ → ℕ) (n : NetworkInterfaceState) (u : Unused) (rest : Text)
      → DevLine

abbrev pub dev_text : DevLine → Text
dev_text (heading t) = t
dev_text (loopback pad rest) = (pad ++ codes "lo") ++ (b':' ∷ rest)
dev_text (interface pad name gaps n u rest) = (pad ++ name) ++ (b':' ∷ counters_text gaps n u rest)

-- What the kernel prints at the time `now`.
abbrev pub IsDevLine : ℕ → DevLine → Type 0
IsDevLine now (heading t) = Lacks b':' t
IsDevLine now (loopback pad rest) = IsBlank pad
IsDevLine now (interface pad name gaps n u rest) =
    IsBlank pad × IsInterface name × Fits n u × (n.timestamp_ns ≡ now)

-- The interfaces, in the order of the lines.
abbrev pub interfaces : List DevLine → List (Text × NetworkInterfaceState)
interfaces [] = []
interfaces (heading t ∷ ls) = interfaces ls
interfaces (loopback pad rest ∷ ls) = interfaces ls
interfaces (interface pad name gaps n u rest ∷ ls) = (name, n) ∷ interfaces ls

trim_left-lo : (pad : Text) → IsBlank pad → trim_left (pad ++ codes "lo") ≡ codes "lo"
unfolding trim_left
trim_left-lo [] h = refl
trim_left-lo (x ∷ pad) h = rw h.0 (trim_left-lo pad h.1)

Lacks-lo : (pad : Text) → IsBlank pad → Lacks b':' (pad ++ codes "lo")
Lacks-lo [] h = (refl, (refl, tt))
Lacks-lo (x ∷ pad) h = (ground (arith, h.0), Lacks-lo pad h.1)

parse_line-heading : (now : ℕ) (t : Text) → Lacks b':' t → parse_line now t ≡ none
unfolding parse_line split_line
parse_line-heading now t h = rw (find_char-Lacks b':' t h) refl

parse_line-loopback :
    (now : ℕ) (pad rest : Text) → IsBlank pad → parse_line now (dev_text (loopback pad rest)) ≡ none
unfolding parse_line split_line named_state text_eq
parse_line-loopback now pad rest h =
    let front = pad ++ codes "lo" in
    rw
      (
        find_char-first b':' front rest (Lacks-lo pad h),
        take-length front (b':' ∷ rest),
        trim_left-lo pad h,
      )
      refl

parsed-interfaces :
    (now : ℕ) (ls : List DevLine)
    → All (IsDevLine now) ls
    → parsed now (map dev_text ls) ≡ interfaces ls
parsed-interfaces now [] h = refl
parsed-interfaces now (heading t ∷ ls) h =
    parsed-cons now t (map dev_text ls)
    ∙ rw (parse_line-heading now t h.0) (parsed-interfaces now ls h.1)
parsed-interfaces now (loopback pad rest ∷ ls) h =
    parsed-cons now (dev_text (loopback pad rest)) (map dev_text ls)
    ∙ rw (parse_line-loopback now pad rest h.0) (parsed-interfaces now ls h.1)
parsed-interfaces now (interface pad name gaps n u rest ∷ ls) ((b, i, f, t), h) =
    let e : parse_line now (dev_text (interface pad name gaps n u rest)) ≡ some (name, n) =
      rw (← t) (parse_line-counters pad name gaps n u rest b i f) in
    parsed-cons now (dev_text (interface pad name gaps n u rest)) (map dev_text ls)
    ∙ rw e (ap (◌∷◌ (name, n)) (parsed-interfaces now ls h))

-- Byte and packet counters that did not fall since the previous call, and a clock that did not go back.
pub record Grew (prev cur : NetworkInterfaceState) : Type 0 where
  pub fits_rx_bytes : cur.rx_bytes < u64_mod
  pub fits_tx_bytes : cur.tx_bytes < u64_mod
  pub fits_rx_packets : cur.rx_packets < u64_mod
  pub fits_tx_packets : cur.tx_packets < u64_mod
  pub fits_time : cur.timestamp_ns < u64_mod
  pub rx_bytes : prev.rx_bytes ≤ cur.rx_bytes
  pub tx_bytes : prev.tx_bytes ≤ cur.tx_bytes
  pub rx_packets : prev.rx_packets ≤ cur.rx_packets
  pub tx_packets : prev.tx_packets ≤ cur.tx_packets
  pub time : prev.timestamp_ns ≤ cur.timestamp_ns

abbrev pub GrewFrom : Option NetworkInterfaceState → NetworkInterfaceState → Type 0
GrewFrom none cur = Unit
GrewFrom (some prev) cur = Grew prev cur

module _ {W : Type 0} ⦃d : Double W⦄ where
  open d use {lit, of_u64, div}

  -- A growth from `a` to `b` over `ns` nanoseconds, per second, and 0 if no time passed.
  abbrev pub per_second : ℕ → ℕ → ℕ → W
  per_second a b ns =
      if ltb 0 ns then div (of_u64 (b - a)) (div (of_u64 ns) (lit 1_000_000_000 0)) else zero_double

  -- What is reported of an interface: its bytes and packets since `prev`, and its errors and drops as they
  -- stand.
  abbrev pub traffic_of :
      Text → NetworkInterfaceState → Option NetworkInterfaceState → NetworkInterfaceInfo W
  traffic_of name cur none = record {
    interface_name = name;
    rx_bytes_per_sec = zero_double;
    tx_bytes_per_sec = zero_double;
    rx_packets_per_sec = zero_double;
    tx_packets_per_sec = zero_double;
    rx_errors = cur.rx_errors;
    tx_errors = cur.tx_errors;
    rx_drops = cur.rx_drops;
    tx_drops = cur.tx_drops;
  }
  traffic_of name cur (some prev) =
      let ns = cur.timestamp_ns - prev.timestamp_ns in
      record {
        interface_name = name;
        rx_bytes_per_sec = per_second prev.rx_bytes cur.rx_bytes ns;
        tx_bytes_per_sec = per_second prev.tx_bytes cur.tx_bytes ns;
        rx_packets_per_sec = per_second prev.rx_packets cur.rx_packets ns;
        tx_packets_per_sec = per_second prev.tx_packets cur.tx_packets ns;
        rx_errors = cur.rx_errors;
        tx_errors = cur.tx_errors;
        rx_drops = cur.rx_drops;
        tx_drops = cur.tx_drops;
      }

  interface_info-traffic_of :
      (name : Text) (cur : NetworkInterfaceState) (o : Option NetworkInterfaceState)
      → GrewFrom o cur
      → interface_info name cur o ≡ traffic_of name cur o
  unfolding interface_info idle_info rated_info seconds_of
  interface_info-traffic_of name cur none g = refl
  interface_info-traffic_of name cur (some p) g =
      rw
        (
          sub_u64-eq-sub cur.timestamp_ns p.timestamp_ns g.fits_time g.time,
          sub_u64-eq-sub cur.rx_bytes p.rx_bytes g.fits_rx_bytes g.rx_bytes,
          sub_u64-eq-sub cur.tx_bytes p.tx_bytes g.fits_tx_bytes g.tx_bytes,
          sub_u64-eq-sub cur.rx_packets p.rx_packets g.fits_rx_packets g.rx_packets,
          sub_u64-eq-sub cur.tx_packets p.tx_packets g.fits_tx_packets g.tx_packets,
        )
        (elim (Bool-cases (ltb 0 (cur.timestamp_ns - p.timestamp_ns))) [
          | inl e ↦ rw e refl
          | inr e ↦ rw e refl
        ])

  -- The traffic of the interfaces since `before`.
  abbrev pub traffic :
      (Text → Option NetworkInterfaceState)
      → List (Text × NetworkInterfaceState)
      → List (NetworkInterfaceInfo W)
  traffic before = map λ n. traffic_of n.0 n.1 (before n.0)

  reported-traffic :
      (c : NetworkCollector) (before : Text → Option NetworkInterfaceState)
      (ns : List (Text × NetworkInterfaceState))
      → ((n : Text) → previous_of c n ≡ before n)
      → All (λ n. GrewFrom (before n.0) n.1) ns
      → reported {W = W} c ns ≡ traffic before ns
  reported-traffic c before [] b g = refl
  reported-traffic c before (n ∷ ns) b g =
      rw (b n.0, interface_info-traffic_of n.0 n.1 (before n.0) g.0)
        (ap (◌∷◌ (traffic_of n.0 n.1 (before n.0))) (reported-traffic c before ns b g.1))

previous_of-saved :
    (c : NetworkCollector) (key : Text) (o : Option NetworkInterfaceState)
    → c.has_previous_state ≡ true
    → lookup key c.previous_iface_states ≡ o
    → previous_of c key ≡ o
unfolding previous_of
previous_of-saved c key o h e = rw h e

-- What a call on these lines reports and remembers.
collect-lines :
    (W : Type 0) ⦃d : Double W⦄ (fs : Reader) (now : ℕ) (c : NetworkCollector) (ls : List DevLine)
    (key : Text)
    → fs.read_file_lines (codes "/proc/net/dev") ≡ ok (map dev_text ls)
    → All (IsDevLine now) ls
    → let (r, c') = collect {W = W} fs now c in
      HasInterfaces r (reported c (interfaces ls))
      × (c'.has_previous_state ≡ true)
      × (lookup key c'.previous_iface_states ≡ last_state key none (interfaces ls))
collect-lines W fs now c ls key e h =
    rw (← parsed-interfaces now ls h) (collect-interfaces W fs now c (map dev_text ls) key e)

-- Whatever the collector was, a call on the lines `ls` of /proc/net/dev and then one on `ls'` report: an
-- entry for each interface of the second file but lo, in the order of the lines; its bytes and
-- packets, received and sent, per second since the last counters that the first file has under its name,
-- 0 for a name that it does not have or if no time passed; and its errors and drops as they stand. The second call's
-- counters are remembered, the last under each name, and none of the first call's. Lines are as the
-- kernel prints them, in padded columns; counters and clock did not fall.
pub collect_twice-traffic :
    (W : Type 0) ⦃d : Double W⦄ (fs fs' : Reader) (now now' : ℕ) (c : NetworkCollector)
    (ls ls' : List DevLine) (key : Text)
    → fs.read_file_lines (codes "/proc/net/dev") ≡ ok (map dev_text ls)
    → fs'.read_file_lines (codes "/proc/net/dev") ≡ ok (map dev_text ls')
    → All (IsDevLine now) ls
    → All (IsDevLine now') ls'
    → All (λ n. GrewFrom (last_state n.0 none (interfaces ls)) n.1) (interfaces ls')
    → let (r, c') = collect {W = W} fs' now' (collect {W = W} fs now c).1 in
      HasInterfaces r (traffic (λ n. last_state n none (interfaces ls)) (interfaces ls'))
      × (c'.has_previous_state ≡ true)
      × (lookup key c'.previous_iface_states ≡ last_state key none (interfaces ls'))
collect_twice-traffic W fs fs' now now' c ls ls' key e e' h h' g =
    let c1 = (collect {W = W} fs now c).1 in
    let before : Text → Option NetworkInterfaceState = λ n. last_state n none (interfaces ls) in
    let seen = λ (n : Text). collect-lines W fs now c ls n e h in
    rw
      (← reported-traffic {W = W} c1 before (interfaces ls')
        (λ n. previous_of-saved c1 n (before n) (seen n).1 (seen n).2) g)
      (collect-lines W fs' now' c1 ls' key e' h')
