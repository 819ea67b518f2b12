-- ===== src/Stream.antt =====
-- std::istringstream over a text, std::stoull and std::stoi, as the collectors use them in the C
-- locale: the part that is not read yet, and whether failbit is set.
pub mod RoundTrip
pub mod Fields
mod Tests
use sys_scope.Base.{
  ℕ, suc, ◌+◌, ◌-◌, ◌*◌, ◌^◌, ◌≡◌, refl, Bool, true, false, ◌||◌, List, [], ◌∷◌, Option, none, some,
  Text, ltb, leb, ◌==◌, if◌then◌else◌, is_space, scan_digits, digit_ahead, max_u64, u64_mod,
  sub_u64, ℤ, pos, negsuc,
}

pub record Stream : Type 0 where
  pub rest : Text
  pub failed : Bool

unfoldable pub open_text : Text → Stream
open_text s = record { rest = s; failed = false }

unfoldable pub skip_ws : Text → Text
skip_ws [] = []
skip_ws (c ∷ s) = if is_space c then skip_ws s else c ∷ s

-- The characters up to the next space, and what follows them.
unfoldable pub split_word : Text → Text × Text
split_word [] = ([], [])
split_word (c ∷ s) = let (w, r) = split_word s in if is_space c then ([], c ∷ s) else (c ∷ w, r)

abbrev pub refused : Text → Stream
refused s = record { rest = s; failed = true }

abbrev pub reading : Text → Stream
reading s = record { rest = s; failed = false }

word_at : Text → Text → Text × Stream
unfolding split_word
word_at old [] = (old, refused [])
word_at old (c ∷ s) = let (w, r) = split_word (c ∷ s) in (w, reading r)

-- `ss >> word`. A stream that has failed, or holds no more word, leaves the variable as it was.
unfoldable pub read_word : Text → Stream → Text × Stream
unfolding word_at skip_ws
read_word old s = if s.failed then (old, s) else word_at old (skip_ws s.rest)

char_at : ℕ → Text → ℕ × Stream
char_at old [] = (old, refused [])
char_at old (c ∷ s) = (c, reading s)

-- `ss >> c`
unfoldable pub read_char : ℕ → Stream → ℕ × Stream
unfolding char_at skip_ws
read_char old s = if s.failed then (old, s) else char_at old (skip_ws s.rest)

-- A number as the C library's strtol family reads it: its sign, its digits' value, and the rest.
-- `none` where no digit stands.
pub data Numeral : Type 0 where
  plus minus : ℕ → Text → Numeral
  garbled : Text → Numeral

magnitude : Bool → Text → Numeral
unfolding scan_digits
magnitude negative s =
    if digit_ahead s
    then (let (n, r) = scan_digits 0 s in if negative then minus n r else plus n r)
    else garbled s

unfoldable pub numeral : Text → Numeral
unfolding magnitude
numeral [] = garbled []
numeral (c ∷ s) =
    if c == b'-'
    then magnitude true s
    else if c == b'+'
    then magnitude false s
    else magnitude false (c ∷ s)

-- Storing into a uint64_t: out of range is the largest value and failbit, a minus sign wraps.
abbrev pub store_u64 : Numeral → ℕ × Stream
store_u64 (garbled r) = (0, refused r)
store_u64 (plus n r) = if ltb max_u64 n then (max_u64, refused r) else (n, reading r)
store_u64 (minus n r) = if ltb max_u64 n then (max_u64, refused r) else (sub_u64 0 n, reading r)

u64_at : ℕ → Text → ℕ × Stream
unfolding numeral sub_u64
u64_at old [] = (old, refused [])
u64_at old (c ∷ s) = store_u64 (numeral (c ∷ s))

-- `ss >> n` for a uint64_t
unfoldable pub read_u64 : ℕ → Stream → ℕ × Stream
unfolding u64_at skip_ws
read_u64 old s = if s.failed then (old, s) else u64_at old (skip_ws s.rest)

-- Minus `n` as an integer.
abbrev negate : ℕ → ℤ
negate n = if n == 0 then pos 0 else negsuc (n - 1)

abbrev pub store_int : Numeral → ℤ × Stream
store_int (garbled r) = (pos 0, refused r)
store_int (plus n r) = if ltb n (2 ^ 31) then (pos n, reading r) else (pos (2 ^ 31 - 1), refused r)
store_int (minus n r) =
    if leb n (2 ^ 31) then (negate n, reading r) else (negsuc (2 ^ 31 - 1), refused r)

int_at : ℤ → Text → ℤ × Stream
unfolding numeral
int_at old [] = (old, refused [])
int_at old (c ∷ s) = store_int (numeral (c ∷ s))

-- `ss >> n` for an int
unfoldable pub read_int : ℤ → Stream → ℤ × Stream
unfolding int_at skip_ws
read_int old s = if s.failed then (old, s) else int_at old (skip_ws s.rest)

-- `std::stoull`; `none` where it throws.
abbrev as_u64 : Numeral → Option ℕ
as_u64 (garbled r) = none
as_u64 (plus n r) = if ltb max_u64 n then none else some n
as_u64 (minus n r) = if ltb max_u64 n then none else some (sub_u64 0 n)

unfoldable pub stoull : Text → Option ℕ
unfolding numeral skip_ws sub_u64
stoull s = as_u64 (numeral (skip_ws s))

-- `std::stoi` on a text of digits, as the process collector calls it; `none` where it throws.
abbrev as_int : Numeral → Option ℤ
as_int (garbled r) = none
as_int (plus n r) = if ltb n (2 ^ 31) then some (pos n) else none
as_int (minus n r) = if leb n (2 ^ 31) then some (negate n) else none

unfoldable pub stoi : Text → Option ℤ
unfolding numeral skip_ws
stoi s = as_int (numeral (skip_ws s))
