-- ===== src/Util/Clock.antt =====
-- A duration is read back from its text.
use sys_scope.Base.{
  ℕ, zero, suc, ◌+◌, ◌-◌, ◌*◌, ◌/◌, ◌%◌, ◌^◌, ◌≤◌, ◌<◌, ◌≡◌, refl, sym, ap, ◌∙◌, false, List, [],
  ◌∷◌, ◌++◌, arith, Text, take, length, length-append, drop, scan_digits, to_string, digits_from,
  digit_ahead, replicate, pad_zero, pos_part, Double, u64_mod,
}
use mathlib.Core.List.{append_assoc, append-nil}
use sys_scope.Stream.RoundTrip.{scan_digits-to_string}
use sys_scope.Util.{clock_text, format_duration_seconds}

-- `n` numbers, with one character behind each of them.
unfoldable pub read_numbers : ℕ → Text → List ℕ
read_numbers zero s = []
read_numbers (suc n) s = let (v, r) = scan_digits 0 s in v ∷ read_numbers n (drop 1 r)

scan_digits-replicate : (n : ℕ) (s : Text) → scan_digits 0 (replicate n b'0' ++ s) ≡ scan_digits 0 s
unfolding scan_digits replicate
scan_digits-replicate zero s = refl
scan_digits-replicate (suc n) s = scan_digits-replicate n s

pub scan_digits-pad_zero :
    (k n : ℕ) (rest : Text)
    → digit_ahead rest ≡ false
    → scan_digits 0 (pad_zero k n ++ rest) ≡ (n, rest)
unfolding pad_zero
scan_digits-pad_zero k n rest h =
    ap (scan_digits 0) (append_assoc (replicate (k - length (to_string n)) b'0') (to_string n) rest)
    ∙ scan_digits-replicate (k - length (to_string n)) (to_string n ++ rest)
    ∙ scan_digits-to_string n rest h

length-replicate : (n c : ℕ) → length (replicate n c) ≡ n
unfolding replicate
length-replicate zero c = refl
length-replicate (suc n) c = omega (arith, length-replicate n c)

-- A number below 10^k has at most `k` digits.
length-digits_from :
    (f n k : ℕ) (out : Text) → n < 10 ^ suc k → length (digits_from f n out) ≤ suc k + length out
unfolding digits_from
length-digits_from zero n k out h = omega arith
length-digits_from (suc f) n zero out h = ground arith
length-digits_from (suc f) n (suc k) out h =
    let p : n / 10 < 10 ^ suc k = omega arith in
    ground (arith, length-digits_from f (n / 10) k ((b'0' + n % 10) ∷ out) p)

pub length-pad_zero : (k n m : ℕ) → k ≤ suc m → n < 10 ^ suc m → length (pad_zero k n) ≤ suc m
unfolding pad_zero to_string
length-pad_zero k n m h p = omega (
  arith,
  length-append (replicate (k - length (to_string n)) b'0') (to_string n),
  length-replicate (k - length (to_string n)) b'0',
  length-digits_from (suc n) n m [] p,
)

pub take-all : (n : ℕ) (s : Text) → length s ≤ n → take n s ≡ s
take-all zero [] h = refl
take-all zero (c ∷ s) h = absurd (omega arith)
take-all (suc n) [] h = refl
take-all (suc n) (c ∷ s) h = ap (◌∷◌ c) (take-all n s (omega arith))

length-clock_text : (n : ℕ) → n < 10 ^ 20 → length (clock_text n) ≤ 63
unfolding clock_text
length-clock_text n h =
    let hours = pad_zero 2 (n / 3600) in
    let minutes = pad_zero 2 (n % 3600 / 60) in
    let secs = pad_zero 2 (n % 60) in
    omega (
      arith,
      length-append hours (b':' ∷ (minutes ++ (b':' ∷ secs))),
      length-append minutes (b':' ∷ secs),
      length-pad_zero 2 (n / 3600) 19 (omega arith) (omega arith),
      length-pad_zero 2 (n % 3600 / 60) 19 (omega arith) (omega arith),
      length-pad_zero 2 (n % 60) 19 (omega arith) (omega arith),
    )

pub read_numbers-pad_zero :
    (m k n c : ℕ) (rest : Text)
    → digit_ahead (c ∷ rest) ≡ false
    → read_numbers (suc m) (pad_zero k n ++ (c ∷ rest)) ≡ n ∷ read_numbers m rest
unfolding read_numbers
read_numbers-pad_zero m k n c rest h = rw (scan_digits-pad_zero k n (c ∷ rest) h) refl

pub read_numbers_last : (k n : ℕ) → read_numbers 1 (pad_zero k n) ≡ n ∷ []
unfolding read_numbers
read_numbers_last k n =
    let e : scan_digits 0 (pad_zero k n) ≡ (n, []) =
      ap (scan_digits 0) (sym (append-nil (pad_zero k n))) ∙ scan_digits-pad_zero k n [] refl in
    rw e refl

-- The seconds that `hours:minutes:secs` stands for.
abbrev seconds_in : List ℕ → ℕ
seconds_in (h ∷ m ∷ s ∷ []) = h * 3600 + m * 60 + s
seconds_in _ = 0

unfoldable pub read_duration : Text → ℕ
unfolding read_numbers
read_duration s = seconds_in (read_numbers 3 s)

read_numbers-clock_text :
    (n : ℕ) → read_numbers 3 (clock_text n) ≡ n / 3600 ∷ n % 3600 / 60 ∷ n % 60 ∷ []
unfolding clock_text
read_numbers-clock_text n =
    read_numbers-pad_zero 2 2 (n / 3600) b':'
      (pad_zero 2 (n % 3600 / 60) ++ (b':' ∷ pad_zero 2 (n % 60))) refl
    ∙ ap (◌∷◌ (n / 3600)) (
        read_numbers-pad_zero 1 2 (n % 3600 / 60) b':' (pad_zero 2 (n % 60)) refl
        ∙ ap (◌∷◌ (n % 3600 / 60)) (read_numbers_last 2 (n % 60)))

-- The text of a duration, whose whole seconds fit in 64 bits, reads back as hours, minutes and seconds
-- that make up exactly those whole seconds.
pub read_duration-format_duration_seconds :
    (W : Type 0) ⦃d : Double W⦄ (x : W)
    → pos_part (d.trunc x) < u64_mod
    → read_duration (format_duration_seconds x) ≡ pos_part (d.trunc x)
unfolding read_duration format_duration_seconds
read_duration-format_duration_seconds W ⦃d⦄ x h =
    let n = pos_part (d.trunc x) in
    ap (λ (s : Text). seconds_in (read_numbers 3 s))
      (take-all 63 (clock_text n) (length-clock_text n (omega arith)))
    ∙ ap seconds_in (read_numbers-clock_text n)
    ∙ (omega arith)
