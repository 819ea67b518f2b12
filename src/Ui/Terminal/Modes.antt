-- ===== src/Ui/Terminal/Modes.antt =====
-- The mode of the terminal through any sequence of calls.
use sys_scope.Base.{◌≡◌, refl, Bool, true, false, List, [], ◌∷◌, Option, none, some, arith, Text, ℤ}
use sys_scope.Ui.Terminal.{
  Termios, Terminal, raw_of, write, enable_raw_mode, disable_raw_mode, clear_screen, move_cursor,
}

pub data Call : Type 0 where
  enables disables clears : Call
  moves : ℤ → ℤ → Call
  writes : Text → Call

unfoldable pub step : Call → Terminal → Terminal
step enables t = enable_raw_mode t
step disables t = disable_raw_mode t
step clears t = clear_screen t
step (moves r c) t = move_cursor r c t
step (writes s) t = write s t

unfoldable pub run : List Call → Terminal → Terminal
unfolding step
run [] t = t
run (c ∷ cs) t = run cs (step c t)

-- With the mode `m` outside of raw mode: in raw mode it is kept for later.
abbrev pub Keeps : Option Termios → Terminal → Type 0
Keeps none t = t.tty ≡ none
Keeps (some m) t = elim t.raw_mode_enabled [
  | true ↦ (t.tty ≡ some (raw_of m)) × (t.orig_termios ≡ m)
  | false ↦ t.tty ≡ some m
]

enable-Keeps : (m : Option Termios) (t : Terminal) → Keeps m t → Keeps m (enable_raw_mode t)
unfolding enable_raw_mode
enable-Keeps none t h = ground arith
enable-Keeps (some m) t h = ground arith

disable-Keeps : (m : Option Termios) (t : Terminal) → Keeps m t → Keeps m (disable_raw_mode t)
unfolding disable_raw_mode
disable-Keeps none t h = ground arith
disable-Keeps (some m) t h = ground arith

write-Keeps : (m : Option Termios) (s : Text) (t : Terminal) → Keeps m t → Keeps m (write s t)
unfolding write
write-Keeps none s t h = h
write-Keeps (some m) s t h = h

step-Keeps : (m : Option Termios) (c : Call) (t : Terminal) → Keeps m t → Keeps m (step c t)
unfolding step clear_screen move_cursor
step-Keeps m enables t h = enable-Keeps m t h
step-Keeps m disables t h = disable-Keeps m t h
step-Keeps m clears t h = write-Keeps m _ t h
step-Keeps m (moves r c) t h = write-Keeps m _ t h
step-Keeps m (writes s) t h = write-Keeps m s t h

run-Keeps : (m : Option Termios) (cs : List Call) (t : Terminal) → Keeps m t → Keeps m (run cs t)
unfolding run
run-Keeps m [] t h = h
run-Keeps m (c ∷ cs) t h = run-Keeps m cs (step c t) (step-Keeps m c t h)

Keeps-start :
    (m : Option Termios) (t : Terminal) → t.tty ≡ m → t.raw_mode_enabled ≡ false → Keeps m t
Keeps-start none t h r = h
Keeps-start (some m) t h r = ground arith

pub disable_raw_mode-normal :
    (m : Option Termios) (t : Terminal)
    → Keeps m t
    → ((disable_raw_mode t).tty ≡ m) × ((disable_raw_mode t).raw_mode_enabled ≡ false)
unfolding disable_raw_mode
disable_raw_mode-normal none t h = ground arith
disable_raw_mode-normal (some m) t h = ground arith

-- A second enable_raw_mode changes nothing, so it does not take raw mode for the mode to restore.
pub enable_raw_mode_twice : (t : Terminal) → enable_raw_mode (enable_raw_mode t) ≡ enable_raw_mode t
unfolding enable_raw_mode
enable_raw_mode_twice t = ground arith

-- From a terminal that is not in raw mode, whatever sequence of calls comes between, disable_raw_mode
-- brings back the mode that the terminal had at first, and raw mode is off.
pub run-disable_raw_mode :
    (cs : List Call) (t : Terminal)
    → t.raw_mode_enabled ≡ false
    → ((disable_raw_mode (run cs t)).tty ≡ t.tty)
      × ((disable_raw_mode (run cs t)).raw_mode_enabled ≡ false)
run-disable_raw_mode cs t h =
    disable_raw_mode-normal t.tty (run cs t) (run-Keeps t.tty cs t (Keeps-start t.tty t refl h))

-- The mode of the terminal, the mode to restore, and the flag.
abbrev pub modes : Terminal → Option Termios × Termios × Bool
modes t = (t.tty, t.orig_termios, t.raw_mode_enabled)

pub modes-write : (s : Text) (t : Terminal) → modes (write s t) ≡ modes t
unfolding write
modes-write s t = refl

pub enable_raw_mode-modes :
    (m : Termios) (t : Terminal)
    → t.tty ≡ some m
    → t.raw_mode_enabled ≡ false
    → modes (enable_raw_mode t) ≡ (some (raw_of m), m, true)
unfolding enable_raw_mode
enable_raw_mode-modes m t h r = ground arith

-- What follows the loop of the dashboard.
pub disable_raw_mode-modes :
    (m : Termios) (t : Terminal) (s : Text)
    → modes t ≡ (some (raw_of m), m, true)
    → let t' = write s (clear_screen (disable_raw_mode t)) in
      (t'.tty ≡ some m) × (t'.raw_mode_enabled ≡ false)
unfolding write clear_screen disable_raw_mode
disable_raw_mode-modes m t s h = ground arith
