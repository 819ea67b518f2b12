-- ===== src/Collectors/Network/Tests.antt =====
-- The theorems on the network collector at a line of /proc/net/dev, and at two calls on a whole file.
use sys_scope.Base.{◌-◌, ◌≡◌, refl, ◌∷◌, ◌++◌, map, All, some, arith, codes, text_eq}
use sys_scope.Base.{List, [], true, none, lookup, text_key, Micro, micro_double}
use sys_scope.Samples.{uniform}
use sys_scope.Collectors.Network.Baseline.{HasInterfaces, last_state}
use sys_scope.Collectors.Network.Rates.{
  DevLine, heading, loopback, interface, dev_text, IsDevLine, interfaces, Grew, traffic,
  collect_twice-traffic,
}
use sys_scope.Platform.Files.{Reader}
use sys_scope.Collectors.Network.{collect, fresh, NetworkInterfaceState, parse_line}
use sys_scope.Collectors.Network.Parse.{Unused, Fits, counters_text, parse_line-counters}

abbrev counters : NetworkInterfaceState
counters = record {
  rx_bytes = 1000;
  tx_bytes = 2000;
  rx_packets = 10;
  tx_packets = 20;
  rx_errors = 1;
  tx_errors = 2;
  rx_drops = 3;
  tx_drops = 4;
  timestamp_ns = 77;
}

abbrev unused : Unused
unused = record { fifo = 5; frame = 6; compressed = 7; multicast = 8 }

counters-Fits : Fits counters unused
counters-Fits = record {
  rx_bytes_fits = omega arith;
  rx_packets_fits = omega arith;
  rx_errors_fits = omega arith;
  rx_drops_fits = omega arith;
  fifo_fits = omega arith;
  frame_fits = omega arith;
  compressed_fits = omega arith;
  multicast_fits = omega arith;
  tx_bytes_fits = omega arith;
  tx_packets_fits = omega arith;
  tx_errors_fits = omega arith;
  tx_drops_fits = omega arith;
}

parse_line-counters_example :
    parse_line 77 (
      (codes "  " ++ codes "eth0")
      ++ (b':' ∷ counters_text (λ i. 12 - i) counters unused (codes "0 0 0")))
    ≡ some (codes "eth0", counters)
unfolding text_eq
parse_line-counters_example =
    parse_line-counters (codes "  ") (codes "eth0") (λ i. 12 - i) counters unused (codes "0 0 0")
      (refl, (refl, tt)) (refl, (refl, (refl, (refl, (refl, tt)))), refl) counters-Fits

-- A heading, the loopback and eth0, with the counters `n`.
abbrev lines_of : NetworkInterfaceState → List DevLine
lines_of n =
    heading (codes "Inter-| Receive")
    ∷ (loopback (codes "    ") (codes " 1 1")
        ∷ (interface (codes "  ") (codes "eth0") (λ i. 12 - i) n unused (codes "0 0 0") ∷ []))

abbrev later : NetworkInterfaceState
later = record counters {
  rx_bytes = 5000;
  tx_bytes = 2000;
  rx_packets = 15;
  timestamp_ns = 1_000_000_077;
}

abbrev files_of : NetworkInterfaceState → Reader
files_of n = uniform (map dev_text (lines_of n)) [] []

later-Fits : Fits later unused
later-Fits = record {
  rx_bytes_fits = omega arith;
  rx_packets_fits = omega arith;
  rx_errors_fits = omega arith;
  rx_drops_fits = omega arith;
  fifo_fits = omega arith;
  frame_fits = omega arith;
  compressed_fits = omega arith;
  multicast_fits = omega arith;
  tx_bytes_fits = omega arith;
  tx_packets_fits = omega arith;
  tx_errors_fits = omega arith;
  tx_drops_fits = omega arith;
}

later-Grew : Grew counters later
later-Grew = record {
  fits_rx_bytes = omega arith;
  fits_tx_bytes = omega arith;
  fits_rx_packets = omega arith;
  fits_tx_packets = omega arith;
  fits_time = omega arith;
  rx_bytes = omega arith;
  tx_bytes = omega arith;
  rx_packets = omega arith;
  tx_packets = omega arith;
  time = omega arith;
}

lines_of-IsDevLine :
    (n : NetworkInterfaceState) → Fits n unused → All (IsDevLine n.timestamp_ns) (lines_of n)
unfolding text_eq
lines_of-IsDevLine n f = (
  (
    refl,
    (
      refl,
      (
        refl,
        (
          refl,
          (
            refl,
            (refl, (refl, (refl, (refl, (refl, (refl, (refl, (refl, (refl, (refl, tt)))))))))),
          ),
        ),
      ),
    ),
  ),
  (
    (refl, (refl, (refl, (refl, tt)))),
    (((refl, (refl, tt)), (refl, (refl, (refl, (refl, (refl, tt)))), refl), f, refl), tt),
  ),
)

collect_twice-traffic_example :
    let c = (collect {W = Micro} (files_of counters) 77 fresh).1 in
    let (r, c') = collect {W = Micro} (files_of later) 1_000_000_077 c in
    HasInterfaces r (
      traffic
        (λ n. last_state n none (interfaces (lines_of counters)))
        (interfaces (lines_of later)))
    × (c'.has_previous_state ≡ true)
    × (lookup (codes "eth0") c'.previous_iface_states
        ≡ last_state (codes "eth0") none (interfaces (lines_of later)))
unfolding text_eq
collect_twice-traffic_example =
    collect_twice-traffic Micro (files_of counters) (files_of later) 77 1_000_000_077 fresh
      (lines_of counters) (lines_of later) (codes "eth0") refl refl
      (lines_of-IsDevLine counters counters-Fits) (lines_of-IsDevLine later later-Fits)
      (later-Grew, tt)
