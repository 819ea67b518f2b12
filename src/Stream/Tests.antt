-- ===== src/Stream/Tests.antt =====
-- Runs of the stream operations.
use sys_scope.Base.{◌≡◌, refl, codes, some, none, pos, negsuc}
use sys_scope.Stream.{read_u64, read_int, read_word, open_text, reading, refused, stoull, stoi}

read_u64_number : read_u64 7 (open_text (codes "  420 1")) ≡ (420, reading (codes " 1"))
unfolding read_u64 open_text
read_u64_number = refl

read_u64_text : read_u64 7 (open_text (codes " kB")) ≡ (0, refused (codes "kB"))
unfolding read_u64 open_text
read_u64_text = refl

read_u64_end : read_u64 7 (open_text (codes " ")) ≡ (7, refused (codes ""))
unfolding read_u64 open_text
read_u64_end = refl

read_word_label :
    read_word (codes "") (open_text (codes " cpu0 1")) ≡ (codes "cpu0", reading (codes " 1"))
unfolding read_word open_text
read_word_label = refl

read_int_sign : read_int (pos 0) (open_text (codes "-1 2")) ≡ (negsuc 0, reading (codes " 2"))
unfolding read_int open_text
read_int_sign = refl

stoull_trailing : stoull (codes "2400000\n") ≡ some 2400000
unfolding stoull
stoull_trailing = refl

stoi_range : stoi (codes "99999999999") ≡ none
unfolding stoi
stoi_range = refl
