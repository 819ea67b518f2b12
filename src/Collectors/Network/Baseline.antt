-- ===== src/Collectors/Network/Baseline.antt =====
-- What a call of `NetworkCollector::collect` reports and remembers.
use mathlib.Core.List.{append_assoc, append-nil, map-append}
use sys_scope.Base.{
  ℕ, ◌≡◌, refl, sym, ap, ◌∙◌, true, List, [], ◌∷◌, ◌++◌, map, Option, none, some, Text, codes,
  text_key, text_eq, lookup, lookup-insert, if◌then◌else◌, Double,
}
use sys_scope.Core.Result.{Result, ok, error}
use sys_scope.Core.Snapshot.{NetworkSnapshot, NetworkInterfaceInfo}
use sys_scope.Platform.Files.{Reader}
use sys_scope.Collectors.Network.{
  NetworkInterfaceState, NetworkCollector, Progress, no_progress, interface_info, previous_of,
  parse_line, add_interface, scan_lines, report, collect_lines, collect,
}

-- The interfaces of the lines that are not skipped, in their order.
abbrev pub parsed : ℕ → List Text → List (Text × NetworkInterfaceState)
parsed now [] = []
parsed now (l ∷ ls) = elim (parse_line now l) [ none ↦ parsed now ls | some n ↦ n ∷ parsed now ls ]

-- The last counters under the name, and `before` if there are none.
abbrev pub last_state :
    Text
    → Option NetworkInterfaceState
    → List (Text × NetworkInterfaceState)
    → Option NetworkInterfaceState
last_state key before [] = before
last_state key before ((name, s) ∷ ns) =
    last_state key (if text_eq name key then some s else before) ns

abbrev pub one : Option (Text × NetworkInterfaceState) → List (Text × NetworkInterfaceState)
one none = []
one (some n) = n ∷ []

pub parsed-cons :
    (now : ℕ) (l : Text) (ls : List Text)
    → parsed now (l ∷ ls) ≡ one (parse_line now l) ++ parsed now ls
parsed-cons now l ls = of (parse_line now l)
  where
    of :
        (o : Option (Text × NetworkInterfaceState))
        → (elim o [ none ↦ parsed now ls | some n ↦ n ∷ parsed now ls ]) ≡ one o ++ parsed now ls
    of none = refl
    of (some n) = refl

last_state-append :
    (key : Text) (before : Option NetworkInterfaceState)
    (ms ns : List (Text × NetworkInterfaceState))
    → last_state key before (ms ++ ns) ≡ last_state key (last_state key before ms) ns
last_state-append key before [] ns = refl
last_state-append key before (m ∷ ms) ns =
    last_state-append key (if text_eq m.0 key then some m.1 else before) ms ns

module _ {W : Type 0} ⦃d : Double W⦄ where
  -- What is reported of an interface: its counters beside those of the previous call.
  abbrev pub reported :
      NetworkCollector → List (Text × NetworkInterfaceState) → List (NetworkInterfaceInfo W)
  reported c = map λ n. interface_info n.0 n.1 (previous_of c n.0)

  add_interface-interfaces :
      (c : NetworkCollector) (o : Option (Text × NetworkInterfaceState)) (p : Progress W)
      → (add_interface c o p).interfaces ≡ p.interfaces ++ reported c (one o)
  unfolding add_interface
  add_interface-interfaces c none p = sym (append-nil p.interfaces)
  add_interface-interfaces c (some n) p = refl

  add_interface-states :
      (c : NetworkCollector) (o : Option (Text × NetworkInterfaceState)) (p : Progress W)
      (key : Text)
      → lookup key (add_interface c o p).states ≡ last_state key (lookup key p.states) (one o)
  unfolding add_interface
  add_interface-states c none p key = refl
  add_interface-states c (some n) p key = lookup-insert n.0 key n.1 p.states

  scan_lines-interfaces :
      (now : ℕ) (c : NetworkCollector) (ls : List Text) (p : Progress W)
      → (scan_lines now c ls p).interfaces ≡ p.interfaces ++ reported c (parsed now ls)
  unfolding scan_lines
  scan_lines-interfaces now c [] p = sym (append-nil p.interfaces)
  scan_lines-interfaces now c (l ∷ ls) p =
      let o = parse_line now l in
      scan_lines-interfaces now c ls (add_interface c o p)
      ∙ ap (λ (x : List (NetworkInterfaceInfo W)). x ++ reported c (parsed now ls))
          (add_interface-interfaces c o p)
      ∙ append_assoc p.interfaces (reported c (one o)) (reported c (parsed now ls))
      ∙ ap (◌++◌ p.interfaces) (
          sym (map-append _ (one o) (parsed now ls)) ∙ ap (reported c) (sym (parsed-cons now l ls)))

  scan_lines-states :
      (now : ℕ) (c : NetworkCollector) (ls : List Text) (p : Progress W) (key : Text)
      → lookup key (scan_lines now c ls p).states
        ≡ last_state key (lookup key p.states) (parsed now ls)
  unfolding scan_lines
  scan_lines-states now c [] p key = refl
  scan_lines-states now c (l ∷ ls) p key =
      let o = parse_line now l in
      scan_lines-states now c ls (add_interface c o p) key
      ∙ ap (λ b. last_state key b (parsed now ls)) (add_interface-states c o p key)
      ∙ sym (last_state-append key (lookup key p.states) (one o) (parsed now ls))
      ∙ ap (last_state key (lookup key p.states)) (sym (parsed-cons now l ls))

-- Whether the result is a snapshot of exactly these interfaces.
abbrev pub HasInterfaces :
    {W : Type 0} → Result (NetworkSnapshot W) → List (NetworkInterfaceInfo W) → Type 0
HasInterfaces (error e) is = ⊥
HasInterfaces (ok s) is = s.interfaces ≡ is

-- When /proc/net/dev can be read, the report has an entry for each line that names an interface other
-- than lo, in the order of the lines, rated against the counters that the previous call read under
-- the same name; the next baseline has the last counters under each name, and none of the previous
-- call's.
pub collect-interfaces :
    (W : Type 0) ⦃d : Double W⦄ (fs : Reader) (now : ℕ) (c : NetworkCollector) (ls : List Text)
    (key : Text)
    → fs.read_file_lines (codes "/proc/net/dev") ≡ ok ls
    → let (r, c') = collect {W = W} fs now c in
      HasInterfaces r (reported c (parsed now ls))
      × (c'.has_previous_state ≡ true)
      × (lookup key c'.previous_iface_states ≡ last_state key none (parsed now ls))
unfolding collect collect_lines report lookup
collect-interfaces W fs now c ls key e = rw e (
  scan_lines-interfaces now c ls no_progress,
  refl,
  scan_lines-states {W = W} now c ls no_progress key,
)
