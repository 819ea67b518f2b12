-- ===== src/Collectors/Network/Parse.antt =====
-- What `parse_line` reads from a line of /proc/net/dev.
use sys_scope.Base.{
  ℕ, suc, ◌<◌, ◌≡◌, refl, true, false, ◌||◌, [], ◌∷◌, ◌++◌, some, arith, Text, codes, All, Lacks,
  find_char-first, take-length, text_eq, drop, length, ◌==◌, u64_mod,
}
use sys_scope.Stream.{open_text}
use sys_scope.Stream.Fields.{column, read_u64-column, space_ahead-column}
use sys_scope.Collectors.Network.{
  NetworkInterfaceState, trim_left, parse_state, named_state, split_line, parse_line,
}

-- The four numbers that no one asks for.
pub record Unused : Type 0 where
  pub fifo : ℕ
  pub frame : ℕ
  pub compressed : ℕ
  pub multicast : ℕ

-- The counters of a line in the kernel's order: eight of what is received, then those of what is sent. The
-- kernel pads the columns: `gaps i` is the number of blanks in front of number `i` beyond the first.
abbrev pub counters_text : (ℕ → ℕ) → NetworkInterfaceState → Unused → Text → Text
counters_text gaps n u rest = column (gaps 0) n.rx_bytes (
    column (gaps 1) n.rx_packets (
      column (gaps 2) n.rx_errors (
        column (gaps 3) n.rx_drops (
          column (gaps 4) u.fifo (
            column (gaps 5) u.frame (
              column (gaps 6) u.compressed (
                column (gaps 7) u.multicast (
                  column (gaps 8) n.tx_bytes (
                    column (gaps 9) n.tx_packets (
                      column (gaps 10) n.tx_errors
                        (column (gaps 11) n.tx_drops (32 ∷ rest))))))))))))

pub record Fits (n : NetworkInterfaceState) (u : Unused) : Type 0 where
  pub rx_bytes_fits : n.rx_bytes < u64_mod
  pub rx_packets_fits : n.rx_packets < u64_mod
  pub rx_errors_fits : n.rx_errors < u64_mod
  pub rx_drops_fits : n.rx_drops < u64_mod
  pub fifo_fits : u.fifo < u64_mod
  pub frame_fits : u.frame < u64_mod
  pub compressed_fits : u.compressed < u64_mod
  pub multicast_fits : u.multicast < u64_mod
  pub tx_bytes_fits : n.tx_bytes < u64_mod
  pub tx_packets_fits : n.tx_packets < u64_mod
  pub tx_errors_fits : n.tx_errors < u64_mod
  pub tx_drops_fits : n.tx_drops < u64_mod

parse_state-counters_text :
    (gaps : ℕ → ℕ) (n : NetworkInterfaceState) (u : Unused) (rest : Text)
    → Fits n u
    → parse_state n.timestamp_ns (counters_text gaps n u rest) ≡ n
unfolding parse_state open_text
parse_state-counters_text gaps n u rest h =
    let t12 = 32 ∷ rest in
    let t11 = column (gaps 11) n.tx_drops t12 in
    let t10 = column (gaps 10) n.tx_errors t11 in
    let t9 = column (gaps 9) n.tx_packets t10 in
    let t8 = column (gaps 8) n.tx_bytes t9 in
    let t7 = column (gaps 7) u.multicast t8 in
    let t6 = column (gaps 6) u.compressed t7 in
    let t5 = column (gaps 5) u.frame t6 in
    let t4 = column (gaps 4) u.fifo t5 in
    let t3 = column (gaps 3) n.rx_drops t4 in
    let t2 = column (gaps 2) n.rx_errors t3 in
    let t1 = column (gaps 1) n.rx_packets t2 in
    rw
      (
        read_u64-column (gaps 0) 0 n.rx_bytes t1 h.rx_bytes_fits
            (space_ahead-column (gaps 1) n.rx_packets t2),
        read_u64-column (gaps 1) 0 n.rx_packets t2 h.rx_packets_fits
            (space_ahead-column (gaps 2) n.rx_errors t3),
        read_u64-column (gaps 2) 0 n.rx_errors t3 h.rx_errors_fits
            (space_ahead-column (gaps 3) n.rx_drops t4),
        read_u64-column (gaps 3) 0 n.rx_drops t4 h.rx_drops_fits
            (space_ahead-column (gaps 4) u.fifo t5),
        read_u64-column (gaps 4) 0 u.fifo t5 h.fifo_fits (space_ahead-column (gaps 5) u.frame t6),
        read_u64-column (gaps 5) u.fifo u.frame t6 h.frame_fits
            (space_ahead-column (gaps 6) u.compressed t7),
        read_u64-column (gaps 6) u.frame u.compressed t7 h.compressed_fits
            (space_ahead-column (gaps 7) u.multicast t8),
        read_u64-column (gaps 7) u.compressed u.multicast t8 h.multicast_fits
            (space_ahead-column (gaps 8) n.tx_bytes t9),
        read_u64-column (gaps 8) 0 n.tx_bytes t9 h.tx_bytes_fits
            (space_ahead-column (gaps 9) n.tx_packets t10),
        read_u64-column (gaps 9) 0 n.tx_packets t10 h.tx_packets_fits
            (space_ahead-column (gaps 10) n.tx_errors t11),
        read_u64-column (gaps 10) 0 n.tx_errors t11 h.tx_errors_fits
            (space_ahead-column (gaps 11) n.tx_drops t12),
        read_u64-column (gaps 11) 0 n.tx_drops t12 h.tx_drops_fits refl,
      )
      refl

-- A name that the collector reports: it is not empty, has no colon, does not begin with a blank, and is not
-- the loopback.
abbrev pub IsInterface : Text → Type 0
IsInterface [] = ⊥
IsInterface (c ∷ s) =
    (((c == 32) || (c == 9)) ≡ false) × Lacks b':' (c ∷ s) × (text_eq (c ∷ s) (codes "lo") ≡ false)

abbrev pub IsBlank : Text → Type 0
IsBlank = All λ c. ((c == 32) || (c == 9)) ≡ true

trim_left-blank :
    (pad name : Text) → IsBlank pad → IsInterface name → trim_left (pad ++ name) ≡ name
unfolding trim_left
trim_left-blank [] [] h k = elim k [ ]
trim_left-blank [] (c ∷ s) h k = rw k.0 refl
trim_left-blank (x ∷ pad) name h k = rw h.0 (trim_left-blank pad name h.1 k)

Lacks-interface : (pad name : Text) → IsBlank pad → IsInterface name → Lacks b':' (pad ++ name)
Lacks-interface [] [] h k = elim k [ ]
Lacks-interface [] (c ∷ s) h k = k.1
Lacks-interface (x ∷ pad) name h k = (ground (arith, h.0), Lacks-interface pad name h.1 k)

pub drop-colon : (s t : Text) → drop (suc (length s)) (s ++ (b':' ∷ t)) ≡ t
drop-colon [] t = refl
drop-colon (x ∷ s) t = drop-colon s t

-- The name and every counter of a line of /proc/net/dev are read from their own places, behind any
-- blanks before the name and any padding of the columns: received bytes, packets, errors and drops are the first four numbers, and those
-- of what is sent the ninth to the twelfth. The name is not empty, has no colon and no blank in
-- front, and is not lo; the numbers are below 2^64.
pub parse_line-counters :
    (pad name : Text) (gaps : ℕ → ℕ) (n : NetworkInterfaceState) (u : Unused) (rest : Text)
    → IsBlank pad
    → IsInterface name
    → Fits n u
    → parse_line n.timestamp_ns ((pad ++ name) ++ (b':' ∷ counters_text gaps n u rest))
      ≡ some (name, n)
unfolding parse_line split_line named_state
parse_line-counters pad name gaps n u rest b k h =
    let front = pad ++ name in
    let text = counters_text gaps n u rest in
    rw
      (
        find_char-first b':' front text (Lacks-interface pad name b k),
        take-length front (b':' ∷ text),
        trim_left-blank pad name b k,
        drop-colon front text,
      )
      (named name k)
  where
    named :
        (s : Text)
        → IsInterface s
        → named_state n.timestamp_ns s (counters_text gaps n u rest) ≡ some (s, n)
    named [] k = elim k [ ]
    named (c ∷ s) k = rw (k.2, parse_state-counters_text gaps n u rest h) refl
