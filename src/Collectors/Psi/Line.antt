-- ===== src/Collectors/Psi/Line.antt =====
-- What `parse_pressure_line` reads from a line of /proc/pressure, and that its loop comes to an end.
use mathlib.Core.List.{append-nil}
use sys_scope.Base.{
  ℕ, zero, suc, ◌≤◌, ◌<◌, ◌≡◌, refl, sym, ap, ◌∙◌, true, List, [], ◌∷◌, ◌++◌, some, arith, Text,
  codes, All, length, length-append, find_char, text_eq, to_string, u64_mod, Double,
}
use sys_scope.Stream.{open_text, reading, read_word, stoull}
use sys_scope.Stream.RoundTrip.{NoSpace, NoSpace-to_string, read_word_lem, stoull-to_string}
use sys_scope.Stream.Fields.{IsWord, words, space_ahead-words, read_word-word}
use sys_scope.Core.Snapshot.{PsiPressureValues, blank_pressure}
use sys_scope.Collectors.Psi.{store, store_at, read_token, read_tokens, parse_pressure_line}

read_word-end : (old : Text) → (read_word old (reading [])).1.failed ≡ true
unfolding read_word
read_word-end old = refl

length-words : (ws : List Text) → length ws ≤ length (words ws [])
length-words [] = omega arith
length-words (w ∷ ws) = omega (arith, length-words ws, length-append w (words ws []))

NoSpace-append : (s t : Text) → NoSpace s → NoSpace t → NoSpace (s ++ t)
NoSpace-append [] t h k = k
NoSpace-append (c ∷ s) t h k = (h.0, NoSpace-append s t h.1 k)

-- The four words of a line.
abbrev pub pressure_words : Text → Text → Text → ℕ → List Text
pressure_words a10 a60 a300 n =
    (codes "avg10=" ++ a10)
    ∷ ((codes "avg60=" ++ a60)
        ∷ ((codes "avg300=" ++ a300) ∷ ((codes "total=" ++ to_string n) ∷ [])))

module _ {W : Type 0} ⦃d : Double W⦄ where
  abbrev read_all : List Text → PsiPressureValues W → PsiPressureValues W
  read_all [] vals = vals
  read_all (t ∷ ts) vals = read_all ts (read_token t vals)

  -- Fuel above the number of words is enough: every word is read, in order.
  read_tokens-words :
      (f : ℕ) (ts : List Text) (old : Text) (vals : PsiPressureValues W)
      → length ts < f
      → All IsWord ts
      → read_tokens f old (reading (words ts [])) vals ≡ read_all ts vals
  unfolding read_tokens
  read_tokens-words zero ts old vals h k = absurd (omega (arith, h))
  read_tokens-words (suc f) [] old vals h k = rw (read_word-end old) refl
  read_tokens-words (suc f) (t ∷ ts) old vals h k =
      rw (read_word-word old t (words ts []) k.0 (space_ahead-words ts [] refl))
        (read_tokens-words f ts t (read_token t vals) (omega (arith, h)) k.1)

  -- A line of the words `ts` behind the word that names its kind sets what its words say, in order, and
  -- the loop reads them all.
  parse_pressure_line-words :
      (c : ℕ) (kind : Text) (ts : List Text)
      → NoSpace (c ∷ kind)
      → All IsWord ts
      → parse_pressure_line (c ∷ kind ++ words ts []) ≡ read_all ts (blank_pressure {W = W})
  unfolding parse_pressure_line open_text
  parse_pressure_line-words c kind ts h k =
      let fuel : length ts < suc (length (c ∷ kind ++ words ts [])) =
        omega (arith, length-words ts, length-append kind (words ts [])) in
      rw (read_word_lem [] c kind (words ts []) h (space_ahead-words ts [] refl))
        (read_tokens-words (suc (length (c ∷ kind ++ words ts []))) ts [] blank_pressure fuel k)

  -- A line of a pressure file, whatever word names its kind, is read back whole: the three averages as
  -- the numbers that std::stod takes their texts for, and the total, which is below 2^64.
  pub parse_pressure_line-values :
      (c : ℕ) (kind a10 a60 a300 : Text) (x y z : W) (n : ℕ)
      → NoSpace (c ∷ kind)
      → NoSpace a10
      → NoSpace a60
      → NoSpace a300
      → d.stod a10 ≡ some x
      → d.stod a60 ≡ some y
      → d.stod a300 ≡ some z
      → n < u64_mod
      → parse_pressure_line (c ∷ kind ++ words (pressure_words a10 a60 a300 n) [])
        ≡ record { avg10 = x; avg60 = y; avg300 = z; total_microseconds = n }
  unfolding read_token store_at store find_char text_eq
  parse_pressure_line-values c kind a10 a60 a300 x y z n w w10 w60 w300 e10 e60 e300 h =
      let ts = pressure_words a10 a60 a300 n in
      let all : All IsWord ts = (
        NoSpace-append (codes "avg10=") a10 (refl, (refl, (refl, (refl, (refl, (refl, tt)))))) w10,
        (
          NoSpace-append (codes "avg60=") a60 (refl, (refl, (refl, (refl, (refl, (refl, tt))))))
              w60,
          (
            NoSpace-append (codes "avg300=") a300
                (refl, (refl, (refl, (refl, (refl, (refl, (refl, tt))))))) w300,
            (
              NoSpace-append (codes "total=") (to_string n)
                  (refl, (refl, (refl, (refl, (refl, (refl, tt)))))) (NoSpace-to_string n),
              tt,
            ),
          ),
        ),
      ) in
      let total = ap stoull (sym (append-nil (to_string n))) ∙ stoull-to_string n [] h refl in
      parse_pressure_line-words c kind ts w all ∙ rw (e10, e60, e300, total) refl
