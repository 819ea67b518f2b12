-- ===== src/Base/Strings.antt =====
-- std::string as a list of character codes, with what the program calls on it.
use Prim.Native.Nat.{ℕ, zero, suc, ◌+◌, ◌-◌, ◌*◌, ◌/◌, ◌%◌}
use Prim.Native.Char.{code}
use Prim.Native.String.{String}
use mathlib.Core.Path.{◌≡◌, refl}
use mathlib.Core.Logic.{◌↔◌}
use mathlib.Core.Bool.{Bool, true, false, ◌&&◌, ◌||◌}
use mathlib.Core.List.{List, [], ◌∷◌, ◌++◌}
use mathlib.Core.Option.{Option, none, some}
use mathlib.Core.Option
use native.Mathlib.Omega.{arith}
use sys_scope.Base.Tests.{ltb, leb, ◌==◌, if◌then◌else◌}
use sys_scope.Base.Lists.{length, drop}

abbrev pub Text : Type 0
Text = List ℕ

-- A literal of the source.
abbrev pub codes : String → Text
codes String.[] = []
codes (String.◌∷◌ c s) = code c ∷ codes s

unfoldable pub text_eq : Text → Text → Bool
text_eq [] [] = true
text_eq [] (_ ∷ _) = false
text_eq (_ ∷ _) [] = false
text_eq (a ∷ s) (b ∷ t) = a == b && text_eq s t

pub text_eq_iff : (s t : Text) → (text_eq s t ≡ true) ↔ (s ≡ t)
unfolding text_eq
text_eq_iff [] [] = ground arith
text_eq_iff [] (b ∷ t) = ground arith
text_eq_iff (a ∷ s) [] = ground arith
text_eq_iff (a ∷ s) (b ∷ t) = ground (arith, text_eq_iff s t)

-- `s.empty()`
abbrev pub is_empty : Text → Bool
is_empty [] = true
is_empty (_ ∷ _) = false

-- `s.rfind(prefix, 0) == 0`
unfoldable pub starts_with : Text → Text → Bool
starts_with [] s = true
starts_with (p ∷ ps) [] = false
starts_with (p ∷ ps) (c ∷ s) = p == c && starts_with ps s

-- `s.find(c)`; `none` is npos.
unfoldable pub find_char : ℕ → Text → Option ℕ
find_char c [] = none
find_char c (x ∷ s) = if x == c then some 0 else Option.map suc (find_char c s)

-- `s.rfind(c)`: the last place of `c`.
unfoldable pub rfind_char : ℕ → Text → Option ℕ
rfind_char c [] = none
rfind_char c (x ∷ s) = elim (rfind_char c s) [
  | some i ↦ some (suc i)
  | none ↦ if x == c then some 0 else none
]

abbrev pub take : ℕ → Text → Text
take zero s = []
take (suc n) [] = []
take (suc n) (c ∷ s) = c ∷ take n s

-- `s.substr(pos)`; `none` is the exception std::out_of_range.
unfoldable pub substr_from : Text → ℕ → Option Text
substr_from s pos = if ltb (length s) pos then none else some (drop pos s)

-- `s.substr(pos, n)`
unfoldable pub substr : Text → ℕ → ℕ → Option Text
substr s pos n = if ltb (length s) pos then none else some (take n (drop pos s))

-- `if (!s.empty() && s.back() == c) s.pop_back()`
unfoldable pub pop_back_if : ℕ → Text → Text
pop_back_if c [] = []
pop_back_if c (x ∷ []) = if x == c then [] else x ∷ []
pop_back_if c (x ∷ y ∷ s) = x ∷ pop_back_if c (y ∷ s)

-- `::isdigit`
abbrev pub is_digit : ℕ → Bool
is_digit c = leb b'0' c && leb c b'9'

-- The digits at the front, with the value read on from `acc`, and the text behind them.
unfoldable pub scan_digits : ℕ → Text → ℕ × Text
scan_digits acc [] = (acc, [])
scan_digits acc (c ∷ s) = if is_digit c then scan_digits (acc * 10 + (c - b'0')) s else (acc, c ∷ s)

abbrev pub digit_ahead : Text → Bool
digit_ahead [] = false
digit_ahead (c ∷ s) = is_digit c

unfoldable pub all_digits : Text → Bool
all_digits [] = true
all_digits (c ∷ s) = is_digit c && all_digits s

-- `::isspace` in the C locale
abbrev pub is_space : ℕ → Bool
is_space c = c == 32 || leb 9 c && leb c 13

-- `std::getline` until it fails. A last line without its newline counts.
abbrev pub join_head : ℕ → List Text → List Text
join_head c [] = (c ∷ []) ∷ []
join_head c (l ∷ ls) = (c ∷ l) ∷ ls

unfoldable pub lines : Text → List Text
lines [] = []
lines (c ∷ s) = if c == 10 then [] ∷ lines s else join_head c (lines s)

-- The decimal digits of `n` before `out`; every round divides by ten, so fuel above `n` is enough.
unfoldable pub digits_from : ℕ → ℕ → Text → Text
digits_from zero n out = out
digits_from (suc f) n out =
    let more = digits_from f (n / 10) ((b'0' + n % 10) ∷ out) in
    if n / 10 == 0 then (b'0' + n % 10) ∷ out else more

-- `std::to_string` of an unsigned number
unfoldable pub to_string : ℕ → Text
unfolding digits_from
to_string n = digits_from (suc n) n []

unfoldable pub replicate : ℕ → ℕ → Text
replicate zero c = []
replicate (suc n) c = c ∷ replicate n c

-- `%0kd` of a number that is not negative.
unfoldable pub pad_zero : ℕ → ℕ → Text
unfolding replicate
pad_zero k n = replicate (k - length (to_string n)) b'0' ++ to_string n

-- `std::setw(k)` with std::left, and with the default alignment.
unfoldable pub pad_right : ℕ → Text → Text
unfolding replicate
pad_right k s = s ++ replicate (k - length s) 32

unfoldable pub pad_left : ℕ → Text → Text
unfolding replicate
pad_left k s = replicate (k - length s) 32 ++ s

pub text_eq_refl : (s : Text) → text_eq s s ≡ true
text_eq_refl s = (text_eq_iff s s).1 refl
