-- ===== src/Base/Cuts.antt =====
-- Where a text is found in another, and what is cut out of it.
use Prim.Native.Nat.{ℕ, ◌<◌}
use mathlib.Core.Path.{◌≡◌, refl, ap}
use mathlib.Core.Bool.{false}
use mathlib.Core.List.{[], ◌∷◌, ◌++◌}
use mathlib.Core.Option.{none, some}
use native.Mathlib.Omega.{arith}
use sys_scope.Base.Tests.{ltb, ◌==◌}
use sys_scope.Base.Lists.{length, drop, All, length-append}
use sys_scope.Base.Strings.{Text, take, find_char, rfind_char, substr, substr_from}

-- A text in which `c` does not stand.
abbrev pub Lacks : ℕ → Text → Type 0
Lacks c = All λ x. (x == c) ≡ false

pub find_char-first :
    (c : ℕ) (s t : Text) → Lacks c s → find_char c (s ++ (c ∷ t)) ≡ some (length s)
unfolding find_char
find_char-first c [] t h = ground arith
find_char-first c (x ∷ s) t h = rw (h.0, find_char-first c s t h.1) refl

pub find_char-Lacks : (c : ℕ) (t : Text) → Lacks c t → find_char c t ≡ none
unfolding find_char
find_char-Lacks c [] h = refl
find_char-Lacks c (x ∷ t) h = rw (find_char-Lacks c t h.1, h.0) refl

pub rfind_char-Lacks : (c : ℕ) (t : Text) → Lacks c t → rfind_char c t ≡ none
unfolding rfind_char
rfind_char-Lacks c [] h = refl
rfind_char-Lacks c (x ∷ t) h = rw (rfind_char-Lacks c t h.1, h.0) refl

pub rfind_char-last :
    (c : ℕ) (s t : Text) → Lacks c t → rfind_char c (s ++ (c ∷ t)) ≡ some (length s)
unfolding rfind_char
rfind_char-last c [] t h = rw (rfind_char-Lacks c t h) (ground arith)
rfind_char-last c (x ∷ s) t h = rw (rfind_char-last c s t h) refl

pub drop-length : (s t : Text) → drop (length s) (s ++ t) ≡ t
drop-length [] t = refl
drop-length (x ∷ s) t = drop-length s t

pub take-length : (s t : Text) → take (length s) (s ++ t) ≡ s
take-length [] t = refl
take-length (x ∷ s) t = ap (◌∷◌ x) (take-length s t)

pub substr-middle : (s t u : Text) → substr (s ++ (t ++ u)) (length s) (length t) ≡ some t
unfolding substr
substr-middle s t u =
    let fits : ltb (length (s ++ (t ++ u))) (length s) ≡ false =
      ground (arith, length-append s (t ++ u)) in
    rw (fits, drop-length s (t ++ u), take-length t u) refl

pub substr_from-rest : (s t : Text) → substr_from (s ++ t) (length s) ≡ some t
unfolding substr_from
substr_from-rest s t =
    let fits : ltb (length (s ++ t)) (length s) ≡ false = ground (arith, length-append s t) in
    rw (fits, drop-length s t) refl

pub substr_from-beyond : (s : Text) (n : ℕ) → length s < n → substr_from s n ≡ none
unfolding substr_from
substr_from-beyond s n h = ground arith
