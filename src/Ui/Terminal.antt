-- ===== src/Ui/Terminal.antt =====
-- ui/terminal.cpp on a POSIX system: the modes of the terminal and what is written to it.
pub mod Modes
use sys_scope.Base.{
  ℕ, Bool, true, false, [], ◌∷◌, ◌++◌, Option, none, some, Text, codes, ℤ, int_to_string,
  if◌then◌else◌,
}

-- The bits ECHO and ICANON of c_lflag, and everything else.
pub record Termios : Type 0 where
  pub echo : Bool
  pub canonical : Bool
  pub others : ℕ

-- `tty` is the mode of standard input, `none` if that is no terminal, in which case tcgetattr and
-- tcsetattr fail and change nothing. The other two are the static variables. `output` is std::cout.
pub record Terminal : Type 0 where
  pub tty : Option Termios
  pub orig_termios : Termios
  pub raw_mode_enabled : Bool
  pub output : Text

abbrev pub escape : Text → Text
escape s = 27 ∷ s

pub write : Text → Terminal → Terminal
write s t = record t { output = t.output ++ s }

-- `tcgetattr(STDIN_FILENO, &orig_termios)`
pub get_attr : Option Termios → Termios → Termios
get_attr none before = before
get_attr (some m) before = m

-- `tcsetattr(STDIN_FILENO, TCSAFLUSH, &mode)`
pub set_attr : Termios → Option Termios → Option Termios
set_attr mode none = none
set_attr mode (some m) = some mode

-- `raw.c_lflag &= ~(ECHO | ICANON)`
pub raw_of : Termios → Termios
raw_of m = record m { echo = false; canonical = false }

abbrev enter_text : Text
enter_text =
    escape (codes "[?1049h")
    ++ (escape (codes "[?25l") ++ (escape (codes "[H") ++ escape (codes "[2J")))

abbrev leave_text : Text
leave_text = escape (codes "[?25h") ++ escape (codes "[?1049l")

pub enable_raw_mode : Terminal → Terminal
unfolding get_attr set_attr raw_of write
enable_raw_mode t =
    let orig = get_attr t.tty t.orig_termios in
    if t.raw_mode_enabled
    then t
    else write enter_text (record t {
      tty = set_attr (raw_of orig) t.tty;
      orig_termios = orig;
      raw_mode_enabled = true;
    })

pub disable_raw_mode : Terminal → Terminal
unfolding set_attr write
disable_raw_mode t = write leave_text (
    if t.raw_mode_enabled
    then record t { tty = set_attr t.orig_termios t.tty; raw_mode_enabled = false }
    else t)

abbrev pub clear_text : Text
clear_text = escape (codes "[H") ++ escape (codes "[J")

pub clear_screen : Terminal → Terminal
unfolding write
clear_screen t = write clear_text t

pub move_cursor : ℤ → ℤ → Terminal → Terminal
unfolding write
move_cursor row col t =
    write (escape (codes "[") ++ (int_to_string row ++ (b';' ∷ (int_to_string col ++ codes "H")))) t

-- What select() and read() answer: whether a key is pressed, and the byte that is read, if any.
pub record Keyboard : Type 0 where
  pub pressed : Bool
  pub byte : Option ℕ

unfoldable pub read_byte : Option ℕ → ℕ
read_byte none = 0
read_byte (some c) = c

unfoldable pub read_key : Keyboard → ℕ
unfolding read_byte
read_key k = if k.pressed then read_byte k.byte else 0
