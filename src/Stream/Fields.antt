-- ===== src/Stream/Fields.antt =====
-- Numbers and words behind a space each, as the kernel prints them in a line.
use sys_scope.Base.{
  ℕ, zero, suc, ◌<◌, ◌≡◌, refl, ◌∙◌, true, false, List, [], ◌∷◌, ◌++◌, arith, Text, digit_ahead,
  to_string, u64_mod,
}
use sys_scope.Stream.{reading, read_u64, read_word}
use sys_scope.Stream.RoundTrip.{
  NoSpace, space_ahead, read_word_lem, read_word_space, read_u64_space, read_u64-to_string,
}

-- A number behind a space, before `rest`.
abbrev pub number : ℕ → Text → Text
number n rest = 32 ∷ (to_string n ++ rest)

pub digit_ahead_not : (s : Text) → space_ahead s ≡ true → digit_ahead s ≡ false
digit_ahead_not [] h = refl
digit_ahead_not (c ∷ s) h = ground arith

pub read_u64-number :
    (old n : ℕ) (rest : Text)
    → n < u64_mod
    → space_ahead rest ≡ true
    → read_u64 old (reading (number n rest)) ≡ (n, reading rest)
read_u64-number old n rest h e =
    read_u64_space old (to_string n ++ rest)
    ∙ read_u64-to_string old n rest h (digit_ahead_not rest e)

-- A number behind a space and `k` more, as in a padded column.
abbrev pub column : ℕ → ℕ → Text → Text
column zero n rest = number n rest
column (suc k) n rest = 32 ∷ column k n rest

pub read_u64-column :
    (k old n : ℕ) (rest : Text)
    → n < u64_mod
    → space_ahead rest ≡ true
    → read_u64 old (reading (column k n rest)) ≡ (n, reading rest)
read_u64-column zero old n rest h e = read_u64-number old n rest h e
read_u64-column (suc k) old n rest h e =
    read_u64_space old (column k n rest) ∙ read_u64-column k old n rest h e

pub space_ahead-column : (k n : ℕ) (rest : Text) → space_ahead (column k n rest) ≡ true
space_ahead-column zero n rest = refl
space_ahead-column (suc k) n rest = refl

-- The first number of a line, behind `k` blanks.
abbrev pub first_column : ℕ → ℕ → Text → Text
first_column zero n rest = to_string n ++ rest
first_column (suc k) n rest = column k n rest

pub read_u64-first_column :
    (k old n : ℕ) (rest : Text)
    → n < u64_mod
    → space_ahead rest ≡ true
    → read_u64 old (reading (first_column k n rest)) ≡ (n, reading rest)
read_u64-first_column zero old n rest h e = read_u64-to_string old n rest h (digit_ahead_not rest e)
read_u64-first_column (suc k) old n rest h e = read_u64-column k old n rest h e

-- A field of characters, at least one and none of them a space.
abbrev pub IsWord : Text → Type 0
IsWord [] = ⊥
IsWord (c ∷ w) = NoSpace (c ∷ w)

-- The words, each behind a space, before `rest`.
abbrev pub words : List Text → Text → Text
words [] rest = rest
words (w ∷ ws) rest = 32 ∷ (w ++ words ws rest)

pub space_ahead-words :
    (ws : List Text) (rest : Text) → space_ahead rest ≡ true → space_ahead (words ws rest) ≡ true
space_ahead-words [] rest h = h
space_ahead-words (w ∷ ws) rest h = refl

pub read_word-word :
    (old w rest : Text)
    → IsWord w
    → space_ahead rest ≡ true
    → read_word old (reading (32 ∷ (w ++ rest))) ≡ (w, reading rest)
read_word-word old [] rest h e = elim h [ ]
read_word-word old (c ∷ w) rest h e =
    read_word_space old (c ∷ w ++ rest) ∙ read_word_lem old c w rest h e
