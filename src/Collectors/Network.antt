-- ===== src/Collectors/Network.antt =====
-- collectors/network.hpp and network.cpp: the counters of /proc/net/dev, turned into rates.
pub mod Parse
pub mod Baseline
pub mod Rates
mod Tests
use sys_scope.Base.{
  ℕ, suc, ◌<◌, ◌≡◌, Bool, true, false, ◌||◌, List, [], ◌∷◌, ◌++◌, Option, none, some, Text, codes,
  text_eq, is_empty, find_char, take, drop, Dict, lookup, insert, text_key, ltb, ◌==◌,
  if◌then◌else◌, sub_u64, Double,
}
use sys_scope.Stream.{Stream, open_text, read_u64}
use sys_scope.Core.Result.{Result, ok, error}
use sys_scope.Core.Snapshot.{NetworkSnapshot, NetworkInterfaceInfo, zero_double}
use sys_scope.Platform.Files.{Reader}

pub record NetworkInterfaceState : Type 0 where
  pub rx_bytes : ℕ
  pub tx_bytes : ℕ
  pub rx_packets : ℕ
  pub tx_packets : ℕ
  pub rx_errors : ℕ
  pub tx_errors : ℕ
  pub rx_drops : ℕ
  pub tx_drops : ℕ
  pub timestamp_ns : ℕ

abbrev pub States : Type 0
States = Dict Text NetworkInterfaceState

pub record NetworkCollector : Type 0 where
  pub previous_iface_states : States
  pub has_previous_state : Bool

abbrev pub fresh : NetworkCollector
fresh = record { previous_iface_states = []; has_previous_state = false }

-- `name.erase(0, name.find_first_not_of(" \t"))`
pub trim_left : Text → Text
trim_left [] = []
trim_left (c ∷ s) = if c == 32 || c == 9 then trim_left s else c ∷ s

-- The twelve numbers behind the colon; `dummy` takes fifo, frame, compressed and multicast.
pub parse_state : ℕ → Text → NetworkInterfaceState
parse_state now rest =
    let (rx_bytes, s1) = read_u64 0 (open_text rest) in
    let (rx_packets, s2) = read_u64 0 s1 in
    let (rx_errors, s3) = read_u64 0 s2 in
    let (rx_drops, s4) = read_u64 0 s3 in
    let (d1, s5) = read_u64 0 s4 in
    let (d2, s6) = read_u64 d1 s5 in
    let (d3, s7) = read_u64 d2 s6 in
    let (d4, s8) = read_u64 d3 s7 in
    let (tx_bytes, s9) = read_u64 0 s8 in
    let (tx_packets, s10) = read_u64 0 s9 in
    let (tx_errors, s11) = read_u64 0 s10 in
    let (tx_drops, s12) = read_u64 0 s11 in
    record {
      rx_bytes = rx_bytes;
      tx_bytes = tx_bytes;
      rx_packets = rx_packets;
      tx_packets = tx_packets;
      rx_errors = rx_errors;
      tx_errors = tx_errors;
      rx_drops = rx_drops;
      tx_drops = tx_drops;
      timestamp_ns = now;
    }

-- The interface of a line and its counters; `none` for a line that is skipped.
pub named_state : ℕ → Text → Text → Option (Text × NetworkInterfaceState)
named_state now name rest =
    if is_empty name || text_eq name (codes "lo") then none else some (name, parse_state now rest)

pub split_line : ℕ → Text → Option ℕ → Option (Text × NetworkInterfaceState)
unfolding named_state
split_line now line none = none
split_line now line (some colon) =
    named_state now (trim_left (take colon line)) (drop (suc colon) line)

pub parse_line : ℕ → Text → Option (Text × NetworkInterfaceState)
unfolding split_line
parse_line now line = split_line now line (find_char b':' line)

pub previous_of : NetworkCollector → Text → Option NetworkInterfaceState
previous_of c name = if c.has_previous_state then lookup name c.previous_iface_states else none

pub record Progress (W : Type 0) : Type 0 where
  pub states : States
  pub interfaces : List (NetworkInterfaceInfo W)

module _ {W : Type 0} ⦃d : Double W⦄ where
  open d use {lit, of_u64, div}

  pub seconds_of : ℕ → W
  seconds_of dt_ns = div (of_u64 dt_ns) (lit 1_000_000_000 0)

  pub idle_info : Text → NetworkInterfaceState → NetworkInterfaceInfo W
  idle_info name cur = record {
    interface_name = name;
    rx_bytes_per_sec = zero_double;
    tx_bytes_per_sec = zero_double;
    rx_packets_per_sec = zero_double;
    tx_packets_per_sec = zero_double;
    rx_errors = cur.rx_errors;
    tx_errors = cur.tx_errors;
    rx_drops = cur.rx_drops;
    tx_drops = cur.tx_drops;
  }

  pub rated_info : Text → NetworkInterfaceState → NetworkInterfaceState → NetworkInterfaceInfo W
  unfolding idle_info
  rated_info name cur prev =
      let dt_ns = sub_u64 cur.timestamp_ns prev.timestamp_ns in
      let dt_sec = seconds_of dt_ns in
      if ltb 0 dt_ns
      then record (idle_info name cur) {
        rx_bytes_per_sec = div (of_u64 (sub_u64 cur.rx_bytes prev.rx_bytes)) dt_sec;
        tx_bytes_per_sec = div (of_u64 (sub_u64 cur.tx_bytes prev.tx_bytes)) dt_sec;
        rx_packets_per_sec = div (of_u64 (sub_u64 cur.rx_packets prev.rx_packets)) dt_sec;
        tx_packets_per_sec = div (of_u64 (sub_u64 cur.tx_packets prev.tx_packets)) dt_sec;
      }
      else idle_info name cur

  pub interface_info :
      Text → NetworkInterfaceState → Option NetworkInterfaceState → NetworkInterfaceInfo W
  unfolding idle_info rated_info
  interface_info name cur none = idle_info name cur
  interface_info name cur (some prev) = rated_info name cur prev

  pub add_interface :
      NetworkCollector → Option (Text × NetworkInterfaceState) → Progress W → Progress W
  add_interface c none p = p
  add_interface c (some (name, cur)) p = record {
    states = insert name cur p.states;
    interfaces = p.interfaces ++ (interface_info name cur (previous_of c name) ∷ []);
  }

  pub scan_lines : ℕ → NetworkCollector → List Text → Progress W → Progress W
  unfolding add_interface
  scan_lines now c [] p = p
  scan_lines now c (l ∷ ls) p = scan_lines now c ls (add_interface c (parse_line now l) p)

  abbrev pub no_progress : Progress W
  no_progress = record { states = []; interfaces = [] }

  pub report : Progress W → Result (NetworkSnapshot W) × NetworkCollector
  report p = (
    ok (record { interfaces = p.interfaces }),
    record { previous_iface_states = p.states; has_previous_state = true },
  )

  pub collect_lines :
      ℕ → NetworkCollector → Result (List Text) → Result (NetworkSnapshot W) × NetworkCollector
  unfolding report
  collect_lines now c (error e) = (error e, c)
  collect_lines now c (ok ls) = report (scan_lines now c ls no_progress)

  -- `now` is what Timestamp::now() says.
  pub collect : Reader → ℕ → NetworkCollector → Result (NetworkSnapshot W) × NetworkCollector
  unfolding collect_lines
  collect fs now c = collect_lines now c (fs.read_file_lines (codes "/proc/net/dev"))
