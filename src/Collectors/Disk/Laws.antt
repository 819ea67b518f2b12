-- ===== src/Collectors/Disk/Laws.antt =====
-- What a call of `DiskCollector::collect` reports and remembers.
use mathlib.Core.List.{append_assoc, append-nil, map-append}
use sys_scope.Base.{
  ℕ, ◌≡◌, refl, sym, ap, ◌∙◌, ◌⊎◌, inl, inr, Bool, true, false, ◌&&◌, List, [], ◌∷◌, ◌++◌, map,
  Option, none, some, arith, Text, codes, All, All-append, text_eq, text_eq_iff, text_key, lookup,
  lookup-insert, keep, Bool-cases, if◌then◌else◌, sub_u64, Double, IsOrdered, not-lt-min_of,
}
use sys_scope.Core.Result.{Result, ok, error}
use sys_scope.Core.Snapshot.{DiskSnapshot, DiskBlockDeviceInfo}
use sys_scope.Platform.Files.{Reader}
use sys_scope.Collectors.Disk.{
  collect_names, report, DiskBlockStats, DiskCollector, Progress, no_progress, device_stats,
  device_info, previous_of, scan_devices, add_device, collect, idle_info, rated_info, seconds_of,
}

abbrev pub has_stats : Option DiskBlockStats → Bool
has_stats none = false
has_stats (some x) = true

-- The stats of a name that is listed, and `before` of one that is not.
abbrev pub stats_of_listed :
    Reader → ℕ → Text → List Text → Option DiskBlockStats → Option DiskBlockStats
stats_of_listed fs now name [] before = before
stats_of_listed fs now name (n ∷ ns) before = stats_of_listed fs now name ns (
    if text_eq n name && has_stats (device_stats fs now name)
    then device_stats fs now name
    else before)

device_info-name :
    (W : Type 0) ⦃d : Double W⦄ (name : Text) (cur : DiskBlockStats) (prev : Option DiskBlockStats)
    → (device_info {W = W} name cur prev).device_name ≡ name
unfolding device_info
device_info-name W name cur none = refl
device_info-name W name cur (some p) = ground arith

-- The names of the devices that are counted, in their order.
abbrev pub counted : Reader → ℕ → List Text → List Text
counted fs now = keep (λ n. has_stats (device_stats fs now n))

append-counted :
    (fs : Reader) (now : ℕ) (name : Text) (ns l : List Text)
    → (l ++ (if has_stats (device_stats fs now name) then name ∷ [] else [])) ++ counted fs now ns
      ≡ l ++ counted fs now (name ∷ ns)
append-counted fs now name ns l = elim (Bool-cases (has_stats (device_stats fs now name))) [
  | inl h ↦ rw (h, keep) (append_assoc l (name ∷ []) (counted fs now ns))
  | inr h ↦ rw (h, keep) (ap (λ (x : List Text). x ++ counted fs now ns) (append-nil l))
]

module _ {W : Type 0} ⦃d : Double W⦄ where
  open d use {lit, lt}

  abbrev names_of : List (DiskBlockDeviceInfo W) → List Text
  names_of = map λ (i : DiskBlockDeviceInfo W). i.device_name

  add_device-names :
      (c : DiskCollector) (name : Text) (o : Option DiskBlockStats) (p : Progress W)
      → names_of (add_device c name o p).devices
        ≡ names_of p.devices ++ (if has_stats o then name ∷ [] else [])
  unfolding add_device
  add_device-names c name none p = sym (append-nil (names_of p.devices))
  add_device-names c name (some cur) p =
      map-append _ p.devices _
      ∙ ap (λ n. names_of p.devices ++ (n ∷ [])) (device_info-name W name cur (previous_of c name))

  scan_devices-names :
      (fs : Reader) (now : ℕ) (c : DiskCollector) (ns : List Text) (p : Progress W)
      → names_of (scan_devices fs now c ns p).devices ≡ names_of p.devices ++ counted fs now ns
  unfolding scan_devices
  scan_devices-names fs now c [] p = sym (append-nil (names_of p.devices))
  scan_devices-names fs now c (n ∷ ns) p =
      let o = device_stats fs now n in
      scan_devices-names fs now c ns (add_device c n o p)
      ∙ ap (λ (l : List Text). l ++ counted fs now ns) (add_device-names c n o p)
      ∙ append-counted fs now n ns (names_of p.devices)

  add_device-lookup :
      (c : DiskCollector) (name key : Text) (o : Option DiskBlockStats) (p : Progress W)
      → lookup key (add_device c name o p).states
        ≡ (if text_eq name key && has_stats o then o else lookup key p.states)
  unfolding add_device
  add_device-lookup c name key none p = ground arith
  add_device-lookup c name key (some cur) p = ground (arith, lookup-insert name key cur p.states)

  add_device-at :
      (fs : Reader) (now : ℕ) (c : DiskCollector) (name key : Text) (p : Progress W)
      → lookup key (add_device c name (device_stats fs now name) p).states ≡ (
          if text_eq name key && has_stats (device_stats fs now key)
          then device_stats fs now key
          else lookup key p.states)
  add_device-at fs now c name key p =
      add_device-lookup c name key (device_stats fs now name) p
      ∙ same_name (Bool-cases (text_eq name key))
    where
      same_name :
          (text_eq name key ≡ true) ⊎ (text_eq name key ≡ false)
          → (if text_eq name key && has_stats (device_stats fs now name)
              then device_stats fs now name
              else lookup key p.states)
            ≡ (if text_eq name key && has_stats (device_stats fs now key)
                then device_stats fs now key
                else lookup key p.states)
      same_name (inl h) =
          ap
            (λ n.
              if text_eq name key && has_stats (device_stats fs now n)
              then device_stats fs now n
              else lookup key p.states)
            ((text_eq_iff name key).0 h)
      same_name (inr h) = rw h refl

  pub scan_devices-lookup :
      (fs : Reader) (now : ℕ) (c : DiskCollector) (key : Text) (ns : List Text) (p : Progress W)
      → lookup key (scan_devices fs now c ns p).states
        ≡ stats_of_listed fs now key ns (lookup key p.states)
  unfolding scan_devices
  scan_devices-lookup fs now c key [] p = refl
  scan_devices-lookup fs now c key (n ∷ ns) p =
      scan_devices-lookup fs now c key ns (add_device c n (device_stats fs now n) p)
      ∙ ap (stats_of_listed fs now key ns) (add_device-at fs now c n key p)

-- Whether the result is a snapshot of devices with these names.
abbrev pub HasNames : {W : Type 0} ⦃d : Double W⦄ → Result (DiskSnapshot W) → List Text → Type 0
HasNames (error e) names = ⊥
HasNames (ok s) names = names_of s.devices ≡ names

-- When /sys/block can be listed, the report has exactly the devices whose names start with neither
-- loop nor ram and whose stat file can be read, in the order of the listing; the next baseline has
-- the stats of exactly these, read under their own names, and none of the previous call's.
pub collect-baseline :
    (W : Type 0) ⦃d : Double W⦄ (fs : Reader) (now : ℕ) (c : DiskCollector) (ns : List Text)
    (key : Text)
    → fs.list_directory_entries (codes "/sys/block") ≡ ok ns
    → let (r, c') = collect {W = W} fs now c in
      HasNames r (counted fs now ns)
      × (c'.has_previous_state ≡ true)
      × (lookup key c'.previous_disk_states ≡ stats_of_listed fs now key ns none)
unfolding collect collect_names report lookup
collect-baseline W fs now c ns key e = rw e (
  scan_devices-names fs now c ns no_progress,
  refl,
  scan_devices-lookup {W = W} fs now c key ns no_progress,
)

module _ {W : Type 0} ⦃d : Double W⦄ where
  module _ (laws : IsOrdered W) where
    -- No device reports more than 100 percent.
    abbrev pub IsCapped : DiskBlockDeviceInfo W → Type 0
    IsCapped i = d.lt (d.lit 100 0) i.io_utilization_percent ≡ false

    device_info-IsCapped :
        (name : Text) (cur : DiskBlockStats) (prev : Option DiskBlockStats)
        → IsCapped (device_info name cur prev)
    unfolding device_info idle_info rated_info
    device_info-IsCapped name cur none =
        laws.lit-lt 100 0 0 (omega arith) (omega arith) (omega arith)
    device_info-IsCapped name cur (some p) =
        let dt = sub_u64 cur.timestamp_ns p.timestamp_ns in
        let io = d.div (d.of_u64 (sub_u64 cur.io_time_ms p.io_time_ms)) (d.lit 1000 0) in
        ground (
          arith,
          laws.lit-lt 100 0 0,
          not-lt-min_of laws (d.lit 100 0) (d.div (d.mul (d.lit 100 0) io) (seconds_of dt)),
        )

    scan_devices-IsCapped :
        (fs : Reader) (now : ℕ) (c : DiskCollector) (ns : List Text) (p : Progress W)
        → All IsCapped p.devices
        → All IsCapped (scan_devices fs now c ns p).devices
    unfolding scan_devices add_device
    scan_devices-IsCapped fs now c [] p h = h
    scan_devices-IsCapped fs now c (n ∷ ns) p h =
        scan_devices-IsCapped fs now c ns (add_device c n (device_stats fs now n) p)
          (added (device_stats fs now n))
      where
        added : (o : Option DiskBlockStats) → All IsCapped (add_device c n o p).devices
        added none = h
        added (some cur) =
            All-append IsCapped p.devices _ h (device_info-IsCapped n cur (previous_of c n), tt)

    abbrev pub AllCapped : Result (DiskSnapshot W) → Type 0
    AllCapped (error e) = Unit
    AllCapped (ok s) = All IsCapped s.devices

    -- Whatever the files and the clock say, and whatever the previous call left, no reported device is
    -- above 100 percent of I/O time.
    pub collect-AllCapped :
        (fs : Reader) (now : ℕ) (c : DiskCollector) → AllCapped (collect fs now c).0
    unfolding collect collect_names report
    collect-AllCapped fs now c = names (fs.list_directory_entries (codes "/sys/block"))
      where
        names : (r : Result (List Text)) → AllCapped (collect_names fs now c r).0
        names (error e) = tt
        names (ok ns) = scan_devices-IsCapped fs now c ns no_progress tt
