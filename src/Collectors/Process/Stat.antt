-- ===== src/Collectors/Process/Stat.antt =====
-- Which fields of /proc/[pid]/stat `parse_fields` takes its numbers from.
use sys_scope.Base.{
  ℕ, ◌^◌, ◌<◌, ◌≡◌, refl, ap, sym, ◌∙◌, true, List, [], ◌∷◌, ◌++◌, Text, All, length, to_string,
  u64_mod, pos,
}
use sys_scope.Stream.{Stream, open_text, reading, read_char, read_int}
use sys_scope.Stream.RoundTrip.{NoSpace, space_ahead, read_int_space, read_int-to_string}
use sys_scope.Stream.Fields.{
  number, IsWord, words, space_ahead-words, read_word-word, digit_ahead_not, read_u64-number,
}
use sys_scope.Collectors.Process.Fields.{parse_fields, skip_words}

-- The fields from the third on, named as in proc(5); `words_5` are the nine from pgrp to cmajflt, and
-- `words_18` the four priority, nice, num_threads and itrealvalue.
pub record StatLine : Type 0 where
  pub state : ℕ
  pub ppid : ℕ
  pub words_5 : List Text
  pub utime : ℕ
  pub stime : ℕ
  pub cutime : ℕ
  pub cstime : ℕ
  pub words_18 : List Text
  pub starttime : ℕ
  pub vsize : Text
  pub rss : Text
  pub rsslim : ℕ
  pub startcode : ℕ

-- The fields from starttime on.
abbrev from_starttime : StatLine → Text → Text
from_starttime l rest =
    number l.starttime
      (words (l.vsize ∷ l.rss ∷ []) (number l.rsslim (number l.startcode (32 ∷ rest))))

-- The fields from utime on.
abbrev from_utime : StatLine → Text → Text
from_utime l rest =
    number l.utime (
      number l.stime (number l.cutime (number l.cstime (words l.words_18 (from_starttime l rest)))))

-- The text behind the name and the parenthesis, as the kernel prints it.
abbrev pub stat_text : StatLine → Text → Text
stat_text l rest = l.state ∷ number l.ppid (words l.words_5 (from_utime l rest))

pub record IsStatLine (l : StatLine) : Type 0 where
  pub state_seen : NoSpace (l.state ∷ [])
  pub ppid_fits : l.ppid < 2 ^ 31
  pub nine : length l.words_5 ≡ 9
  pub are_words_5 : All IsWord l.words_5
  pub utime_fits : l.utime < u64_mod
  pub stime_fits : l.stime < u64_mod
  pub cutime_fits : l.cutime < u64_mod
  pub cstime_fits : l.cstime < u64_mod
  pub four : length l.words_18 ≡ 4
  pub are_words_18 : All IsWord l.words_18
  pub starttime_fits : l.starttime < u64_mod
  pub vsize_word : IsWord l.vsize
  pub rss_word : IsWord l.rss
  pub rsslim_fits : l.rsslim < u64_mod
  pub startcode_fits : l.startcode < u64_mod

skip_words-words :
    (ws : List Text) (rest : Text)
    → All IsWord ws
    → space_ahead rest ≡ true
    → skip_words (length ws) (reading (words ws rest)) ≡ reading rest
unfolding skip_words
skip_words-words [] rest h e = refl
skip_words-words (w ∷ ws) rest h e =
    ap (λ (p : Text × Stream). skip_words (length ws) p.1)
      (read_word-word [] w (words ws rest) h.0 (space_ahead-words ws rest e))
    ∙ skip_words-words ws rest h.1 e

skip_words-exactly :
    (k : ℕ) (ws : List Text) (rest : Text)
    → length ws ≡ k
    → All IsWord ws
    → space_ahead rest ≡ true
    → skip_words k (reading (words ws rest)) ≡ reading rest
skip_words-exactly k ws rest n h e =
    ap (λ j. skip_words j (reading (words ws rest))) (sym n) ∙ skip_words-words ws rest h e

read_int-number :
    (n : ℕ) (rest : Text)
    → n < 2 ^ 31
    → space_ahead rest ≡ true
    → read_int (pos 0) (reading (number n rest)) ≡ (pos n, reading rest)
read_int-number n rest h e =
    read_int_space (pos 0) (to_string n ++ rest)
    ∙ read_int-to_string (pos 0) n rest h (digit_ahead_not rest e)

read_char-seen :
    (old c : ℕ) (rest : Text)
    → NoSpace (c ∷ [])
    → read_char old (reading (c ∷ rest)) ≡ (c, reading rest)
unfolding read_char
read_char-seen old c rest h = rw h.0 refl

-- From a stat line as the kernel prints it the state, the parent and the two times are taken from
-- their own fields; but the number of threads is taken from starttime (field 22), the virtual size
-- from rsslim (field 25) and the resident pages from startcode (field 26).
pub parse_fields-stat_text :
    (l : StatLine) (rest : Text)
    → IsStatLine l
    → parse_fields (stat_text l rest) ≡ record {
      state = l.state;
      ppid = pos l.ppid;
      utime = l.utime;
      stime = l.stime;
      num_threads = l.starttime;
      vms_bytes = l.rsslim;
      rss_pages = l.startcode;
    }
unfolding parse_fields open_text
parse_fields-stat_text l rest h =
    rw
      (
        read_char-seen b'R' l.state _ h.state_seen,
        read_int-number l.ppid _ h.ppid_fits (space_ahead-words l.words_5 (from_utime l rest) refl),
        skip_words-exactly 9 l.words_5 (from_utime l rest) h.nine h.are_words_5 refl,
        read_u64-number 0 l.utime _ h.utime_fits refl,
        read_u64-number 0 l.stime _ h.stime_fits refl,
        read_u64-number 0 l.cutime (number l.cstime (words l.words_18 (from_starttime l rest)))
            h.cutime_fits refl,
        read_u64-number 0 l.cstime (words l.words_18 (from_starttime l rest)) h.cstime_fits
            (space_ahead-words l.words_18 (from_starttime l rest) refl),
        skip_words-exactly 4 l.words_18 (from_starttime l rest) h.four h.are_words_18 refl,
        read_u64-number 0 l.starttime _ h.starttime_fits refl,
        skip_words-exactly 2 (l.vsize ∷ l.rss ∷ []) _ refl (h.vsize_word, (h.rss_word, tt)) refl,
        read_u64-number 0 l.rsslim _ h.rsslim_fits refl,
        read_u64-number 0 l.startcode _ h.startcode_fits refl,
      )
      refl
