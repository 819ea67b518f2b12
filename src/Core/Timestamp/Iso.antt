-- ===== src/Core/Timestamp/Iso.antt =====
-- The date and the time are read back from the ISO text.
use sys_scope.Base.{
  ℕ, suc, ◌+◌, ◌/◌, ◌%◌, ◌^◌, ◌≤◌, ◌<◌, ◌≡◌, refl, ap, ◌∙◌, List, [], ◌∷◌, ◌++◌, arith, Text,
  length, length-append, pad_zero, digit_ahead, false,
}
use sys_scope.Util.Clock.{
  read_numbers, read_numbers-pad_zero, read_numbers_last, length-pad_zero, take-all,
}
use sys_scope.Core.Timestamp.{Tm, date_text, to_iso_string}

-- The ranges that the C standard gives, and a year of at most nine digits.
pub record IsDate (t : Tm) : Type 0 where
  pub year_short : t.year + 1900 < 10 ^ 9
  pub mon_short : t.mon < 12
  pub mday_short : t.mday ≤ 31
  pub hour_short : t.hour ≤ 23
  pub min_short : t.min ≤ 59
  pub sec_short : t.sec ≤ 60

length-pad_cons :
    (k n m c j : ℕ) (rest : Text)
    → k ≤ suc m
    → n < 10 ^ suc m
    → length rest ≤ j
    → length (pad_zero k n ++ (c ∷ rest)) ≤ suc m + suc j
length-pad_cons k n m c j rest h p q =
    omega (arith, length-append (pad_zero k n) (c ∷ rest), length-pad_zero k n m h p)

length-date_text : (t : Tm) (ms : ℕ) → IsDate t → ms < 1000 → length (date_text t ms) ≤ 63
unfolding date_text
length-date_text t ms v h =
    let e6 = length-pad_zero 3 ms 2 (omega arith) (omega arith) in
    let e5 = length-pad_cons 2 t.sec 1 b'.' 3 _ (omega arith) (omega (arith, v.sec_short)) e6 in
    let e4 = length-pad_cons 2 t.min 1 b':' 6 _ (omega arith) (omega (arith, v.min_short)) e5 in
    let e3 = length-pad_cons 2 t.hour 1 b':' 9 _ (omega arith) (omega (arith, v.hour_short)) e4 in
    let e2 = length-pad_cons 2 t.mday 1 b'T' 12 _ (omega arith) (omega (arith, v.mday_short)) e3 in
    let e1 =
      length-pad_cons 2 (t.mon + 1) 1 b'-' 15 _ (omega arith) (omega (arith, v.mon_short)) e2 in
    let e0 =
      length-pad_cons 4 (t.year + 1900) 8 b'-' 18 _ (omega arith) (omega (arith, v.year_short))
        e1 in
    omega (arith, e0)

numbers-step :
    (m k n c : ℕ) (rest : Text) {l : List ℕ}
    → digit_ahead (c ∷ rest) ≡ false
    → read_numbers m rest ≡ l
    → read_numbers (suc m) (pad_zero k n ++ (c ∷ rest)) ≡ n ∷ l
numbers-step m k n c rest h e = read_numbers-pad_zero m k n c rest h ∙ ap (◌∷◌ n) e

read_numbers-date_text :
    (t : Tm) (ms : ℕ)
    → read_numbers 7 (date_text t ms)
      ≡ (t.year + 1900) ∷ (t.mon + 1) ∷ t.mday ∷ t.hour ∷ t.min ∷ t.sec ∷ ms ∷ []
unfolding date_text
read_numbers-date_text t ms = numbers-step 6 4 (t.year + 1900) b'-' _ refl (
    numbers-step 5 2 (t.mon + 1) b'-' _ refl (
      numbers-step 4 2 t.mday b'T' _ refl (
        numbers-step 3 2 t.hour b':' _ refl (
          numbers-step 2 2 t.min b':' _ refl
            (numbers-step 1 2 t.sec b'.' _ refl (read_numbers_last 3 ms))))))

-- Where the local time gives fields in their ranges, the numbers that stand in the ISO text are the
-- year, the month from 1, the day, the hour, the minute and the second of the local time of the
-- timestamp's whole seconds, and the milliseconds of the rest.
pub read_numbers-to_iso_string :
    (localtime : ℕ → Tm) (ns : ℕ)
    → IsDate (localtime (ns / 1_000_000_000))
    → let t = localtime (ns / 1_000_000_000) in
      read_numbers 7 (to_iso_string localtime ns)
      ≡ (t.year + 1900)
        ∷ (t.mon + 1)
        ∷ t.mday
        ∷ t.hour
        ∷ t.min
        ∷ t.sec
        ∷ (ns % 1_000_000_000 / 1_000_000)
        ∷ []
unfolding to_iso_string
read_numbers-to_iso_string localtime ns v =
    let t = localtime (ns / 1_000_000_000) in
    let ms = ns % 1_000_000_000 / 1_000_000 in
    ap (read_numbers 7) (take-all 63 (date_text t ms) (length-date_text t ms v (omega arith)))
    ∙ read_numbers-date_text t ms
