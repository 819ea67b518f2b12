-- ===== src/Collectors/Process/Name.antt =====
-- Where `read_stat` cuts the text of /proc/[pid]/stat.
use mathlib.Core.List.{append_assoc}
use sys_scope.Base.{
  Lacks, find_char-first, rfind_char-last, substr-middle, substr_from-rest, substr_from-beyond, ℕ,
  ◌+◌, ◌-◌, ◌≡◌, refl, sym, ap, ◌∙◌, false, [], ◌∷◌, ◌++◌, none, some, arith, Text, codes, length,
  length-append, find_char, rfind_char, substr, substr_from, leb,
}
use sys_scope.Core.Result.{returns, throws}
use sys_scope.Collectors.Process.Fields.{parse_fields, read_stat, cut_stat, cut_fields}

-- A stat text: the pid, the name in parentheses, and what follows.
abbrev pub stat_of : Text → Text → Text → Text
stat_of pid name rest = pid ++ (b'(' ∷ (name ++ (b')' ∷ rest)))

close_of : (pid name rest : Text) → stat_of pid name rest ≡ (pid ++ (b'(' ∷ name)) ++ (b')' ∷ rest)
close_of [] name rest = refl
close_of (x ∷ pid) name rest = ap (◌∷◌ x) (close_of pid name rest)

name_of :
    (pid name rest : Text) → stat_of pid name rest ≡ (pid ++ (b'(' ∷ [])) ++ (name ++ (b')' ∷ rest))
name_of [] name rest = refl
name_of (x ∷ pid) name rest = ap (◌∷◌ x) (name_of pid name rest)

places :
    (pid name rest : Text)
    → Lacks b'(' pid
    → Lacks b')' rest
    → (find_char b'(' (stat_of pid name rest) ≡ some (length pid))
      × (rfind_char b')' (stat_of pid name rest) ≡ some (length pid + 1 + length name))
places pid name rest h k = (
  find_char-first b'(' pid _ h,
  ap (rfind_char b')') (close_of pid name rest)
      ∙ rfind_char-last b')' (pid ++ (b'(' ∷ name)) rest k
      ∙ ap some (omega (arith, length-append pid (b'(' ∷ name))),
)

substr-name :
    (pid name rest : Text)
    → substr
        (stat_of pid name rest)
        (length pid + 1)
        (length pid + 1 + length name - length pid - 1)
      ≡ some name
substr-name pid name rest =
    let front = pid ++ (b'(' ∷ []) in
    let n : length pid + 1 + length name - length pid - 1 ≡ length name = omega arith in
    let k : length pid + 1 ≡ length front = omega (arith, length-append pid (b'(' ∷ [])) in
    rw (name_of pid name rest, n, k) (substr-middle front name (b')' ∷ rest))

-- The name is what stands between the first '(' and the last ')', whatever spaces and parentheses
-- it holds itself; the fields are read behind the character that follows. The pid may hold no '(' and
-- what follows the name no ')'.
pub read_stat-name :
    (pid name : Text) (c : ℕ) (rest : Text)
    → Lacks b'(' pid
    → Lacks b')' (c ∷ rest)
    → read_stat (stat_of pid name (c ∷ rest)) ≡ returns (some (name, parse_fields rest))
unfolding read_stat cut_stat cut_fields
read_stat-name pid name c rest h k =
    let at = places pid name (c ∷ rest) h k in
    let ordered : leb (length pid + 1 + length name) (length pid) ≡ false = ground arith in
    let back = (pid ++ (b'(' ∷ name)) ++ (b')' ∷ c ∷ []) in
    let whole : stat_of pid name (c ∷ rest) ≡ back ++ rest =
      close_of pid name (c ∷ rest)
      ∙ sym (append_assoc (pid ++ (b'(' ∷ name)) (b')' ∷ c ∷ []) rest) in
    let n : length pid + 1 + length name + 2 ≡ length back = omega (
      arith,
      length-append (pid ++ (b'(' ∷ name)) (b')' ∷ c ∷ []),
      length-append pid (b'(' ∷ name),
    ) in
    let tail : substr_from (stat_of pid name (c ∷ rest)) (length pid + 1 + length name + 2)
        ≡ some rest =
      ap (λ s. substr_from s (length pid + 1 + length name + 2)) whole
      ∙ ap (substr_from (back ++ rest)) n
      ∙ substr_from-rest back rest in
    rw (at.0, at.1, ordered, substr-name pid name (c ∷ rest), tail) refl

-- Where the text ends at the parenthesis behind the name, and no '(' stands in the pid, reading it
-- throws the exception of `substr`.
pub read_stat-throws :
    (pid name : Text)
    → Lacks b'(' pid
    → read_stat (stat_of pid name []) ≡ throws (codes "basic_string::substr")
unfolding read_stat cut_stat cut_fields
read_stat-throws pid name h =
    let at = places pid name [] h tt in
    let ordered : leb (length pid + 1 + length name) (length pid) ≡ false = ground arith in
    let tail : substr_from (stat_of pid name []) (length pid + 1 + length name + 2) ≡ none =
      substr_from-beyond (stat_of pid name []) (length pid + 1 + length name + 2) (
        omega (
          arith,
          length-append pid (b'(' ∷ (name ++ (b')' ∷ []))),
          length-append name (b')' ∷ []),
        )) in
    rw (at.0, at.1, ordered, substr-name pid name [], tail) refl
