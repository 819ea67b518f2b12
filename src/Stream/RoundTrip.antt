-- ===== src/Stream/RoundTrip.antt =====
-- Reading a number back from its decimal digits.
use sys_scope.Base.{
  ℕ, zero, suc, ◌+◌, ◌/◌, ◌%◌, ◌<◌, ◌≡◌, refl, Bool, true, false, [], ◌∷◌, ◌++◌, arith, Text,
  is_space, digits_from, to_string, scan_digits, text_eq, digit_ahead, u64_mod, ℤ, pos, some, ◌^◌,
}
use sys_scope.Stream.{
  read_u64, read_int, read_word, skip_ws, numeral, reading, Numeral, magnitude, u64_at, int_at,
  store_u64, store_int, stoull, split_word,
}

-- Digits in front of `out` have the value that the scan carries into `out`.
scan_digits-digits_from :
    (f n : ℕ) (out : Text) → n < f → scan_digits 0 (digits_from f n out) ≡ scan_digits n out
unfolding digits_from scan_digits
scan_digits-digits_from zero n out h = elim h [ ]
scan_digits-digits_from (suc f) n out h =
    ground (arith, scan_digits-digits_from f (n / 10) ((b'0' + n % 10) ∷ out))

digit_ahead-digits_from : (f n : ℕ) (out : Text) → n < f → digit_ahead (digits_from f n out) ≡ true
unfolding digits_from
digit_ahead-digits_from zero n out h = elim h [ ]
digit_ahead-digits_from (suc f) n out h =
    ground (arith, digit_ahead-digits_from f (n / 10) ((b'0' + n % 10) ∷ out))

digits_from-append :
    (f n : ℕ) (out rest : Text) → digits_from f n out ++ rest ≡ digits_from f n (out ++ rest)
unfolding digits_from
digits_from-append zero n out rest = refl
digits_from-append (suc f) n out rest =
    ground (arith, digits_from-append f (n / 10) ((b'0' + n % 10) ∷ out) rest)

scan_digits_end : (n : ℕ) (rest : Text) → digit_ahead rest ≡ false → scan_digits n rest ≡ (n, rest)
unfolding scan_digits
scan_digits_end n [] h = refl
scan_digits_end n (c ∷ s) h = rw h

digit_ahead-to_string : (n : ℕ) (rest : Text) → digit_ahead (to_string n ++ rest) ≡ true
unfolding to_string
digit_ahead-to_string n rest =
    rw (digits_from-append (suc n) n [] rest) (digit_ahead-digits_from (suc n) n rest (omega arith))

pub scan_digits-to_string :
    (n : ℕ) (rest : Text)
    → digit_ahead rest ≡ false
    → scan_digits 0 (to_string n ++ rest) ≡ (n, rest)
unfolding to_string
scan_digits-to_string n rest h =
    rw (digits_from-append (suc n) n [] rest, scan_digits-digits_from (suc n) n rest (omega arith))
      (scan_digits_end n rest h)

-- A text that starts with a digit has no space and no sign in front.
skip_ws_digit : (s : Text) → digit_ahead s ≡ true → skip_ws s ≡ s
unfolding skip_ws
skip_ws_digit [] h = refl
skip_ws_digit (c ∷ s) h = ground arith

magnitude_digit :
    (s : Text) (n : ℕ) (r : Text)
    → digit_ahead s ≡ true
    → scan_digits 0 s ≡ (n, r)
    → magnitude false s ≡ Numeral.plus n r
unfolding magnitude
magnitude_digit s n r h e = rw (h, e)

numeral_digit :
    (s : Text) (n : ℕ) (r : Text)
    → digit_ahead s ≡ true
    → scan_digits 0 s ≡ (n, r)
    → numeral s ≡ Numeral.plus n r
unfolding numeral
numeral_digit [] n r h e = cc
numeral_digit (c ∷ s) n r h e = ground (arith, magnitude_digit (c ∷ s) n r h e)

-- A number, its digits followed by anything but a digit, as `strtoull` and `strtol` see it.
numeral-to_string :
    (n : ℕ) (rest : Text)
    → digit_ahead rest ≡ false
    → numeral (to_string n ++ rest) ≡ Numeral.plus n rest
numeral-to_string n rest h =
    numeral_digit (to_string n ++ rest) n rest (digit_ahead-to_string n rest)
      (scan_digits-to_string n rest h)

u64_at_digit : (old : ℕ) (s : Text) → digit_ahead s ≡ true → u64_at old s ≡ store_u64 (numeral s)
unfolding u64_at
u64_at_digit old [] h = cc
u64_at_digit old (c ∷ s) h = refl

-- `ss >> n` reads back the number that was printed.
pub read_u64-to_string :
    (old n : ℕ) (rest : Text)
    → n < u64_mod
    → digit_ahead rest ≡ false
    → read_u64 old (reading (to_string n ++ rest)) ≡ (n, reading rest)
unfolding read_u64
read_u64-to_string old n rest h e =
    let s = to_string n ++ rest in
    let ahead : digit_ahead s ≡ true = digit_ahead-to_string n rest in
    rw (skip_ws_digit s ahead, u64_at_digit old s ahead, numeral-to_string n rest e) (ground arith)

int_at_digit : (old : ℤ) (s : Text) → digit_ahead s ≡ true → int_at old s ≡ store_int (numeral s)
unfolding int_at
int_at_digit old [] h = cc
int_at_digit old (c ∷ s) h = refl

pub read_int-to_string :
    (old : ℤ) (n : ℕ) (rest : Text)
    → n < 2 ^ 31
    → digit_ahead rest ≡ false
    → read_int old (reading (to_string n ++ rest)) ≡ (pos n, reading rest)
unfolding read_int
read_int-to_string old n rest h e =
    let s = to_string n ++ rest in
    let ahead : digit_ahead s ≡ true = digit_ahead-to_string n rest in
    rw (skip_ws_digit s ahead, int_at_digit old s ahead, numeral-to_string n rest e) (ground arith)

pub stoull-to_string :
    (n : ℕ) (rest : Text)
    → n < u64_mod
    → digit_ahead rest ≡ false
    → stoull (to_string n ++ rest) ≡ some n
unfolding stoull
stoull-to_string n rest h e =
    rw
      (
        skip_ws_digit (to_string n ++ rest) (digit_ahead-to_string n rest),
        numeral-to_string n rest e,
      )
      (ground arith)

-- White space in front of a number or a word is passed over.
pub read_u64_space :
    (old : ℕ) (s : Text) → read_u64 old (reading (32 ∷ s)) ≡ read_u64 old (reading s)
unfolding read_u64
read_u64_space old s = refl

pub read_int_space :
    (old : ℤ) (s : Text) → read_int old (reading (32 ∷ s)) ≡ read_int old (reading s)
unfolding read_int
read_int_space old s = refl

pub read_word_space :
    (old : Text) (s : Text) → read_word old (reading (32 ∷ s)) ≡ read_word old (reading s)
unfolding read_word
read_word_space old s = refl

-- A word: characters, and no space among them.
abbrev pub NoSpace : Text → Type 0
NoSpace [] = Unit
NoSpace (c ∷ s) = (is_space c ≡ false) × NoSpace s

abbrev pub space_ahead : Text → Bool
space_ahead [] = true
space_ahead (c ∷ s) = is_space c

split_word_lem :
    (w rest : Text) → NoSpace w → space_ahead rest ≡ true → split_word (w ++ rest) ≡ (w, rest)
unfolding split_word
split_word_lem [] [] h e = refl
split_word_lem [] (c ∷ s) h e = rw e
split_word_lem (c ∷ w) rest h e = rw (split_word_lem w rest h.1 e, h.0)

-- `ss >> word` takes the word up to the next space or the end.
pub read_word_lem :
    (old : Text) (c : ℕ) (w rest : Text)
    → NoSpace (c ∷ w)
    → space_ahead rest ≡ true
    → read_word old (reading (c ∷ w ++ rest)) ≡ (c ∷ w, reading rest)
unfolding read_word
read_word_lem old c w rest h e = rw h.0 (rw (split_word_lem (c ∷ w) rest h e))

NoSpace-digits_from : (f n : ℕ) (out : Text) → NoSpace out → NoSpace (digits_from f n out)
unfolding digits_from
NoSpace-digits_from zero n out h = h
NoSpace-digits_from (suc f) n out h =
    ground (arith, NoSpace-digits_from f (n / 10) ((b'0' + n % 10) ∷ out))

pub NoSpace-to_string : (n : ℕ) → NoSpace (to_string n)
unfolding to_string
NoSpace-to_string n = NoSpace-digits_from (suc n) n [] tt

pub to_string-ne-nil : (n : ℕ) → text_eq (to_string n) [] ≡ false
unfolding to_string text_eq
to_string-ne-nil n = nonempty (to_string n) (digit_ahead-digits_from (suc n) n [] (omega arith))
  where
    nonempty : (s : Text) → digit_ahead s ≡ true → text_eq s [] ≡ false
    nonempty [] h = cc
    nonempty (c ∷ s) h = refl
