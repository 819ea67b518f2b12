-- ===== src/Ui/Qt/Playback/Rounds.antt =====
-- A playback from its start to its end.
use mathlib.Core.List.{append_assoc, append-nil}
use sys_scope.Base.{
  ℕ, zero, suc, ◌+◌, ◌≡◌, refl, sym, ap, ◌∙◌, true, false, List, [], ◌∷◌, ◌++◌, map, none, some,
  arith, length, length-append, get_elem?, ℤ, Double,
}
use sys_scope.Storage.{HistoricalMetricRecord}
use sys_scope.Ui.Qt.Playback.{
  PlaybackController, Signal, playback_record, playback_finished, load_records, new_playback, start,
  start_with, pause, stop, tick, tick_at, timeout, timeouts, interval_of,
}

get_elem?-length :
    {A : Type 0} (xs : List A) (y : A) (ys : List A)
    → get_elem? (xs ++ (y ∷ ys)) (length xs) ≡ some y
get_elem?-length [] y ys = refl
get_elem?-length (x ∷ xs) y ys = get_elem?-length xs y ys

get_elem?_end : {A : Type 0} (xs : List A) → get_elem? xs (length xs) ≡ none
get_elem?_end [] = refl
get_elem?_end (x ∷ xs) = get_elem?_end xs

module _ {W : Type 0} ⦃d : Double W⦄ where
  timeout_idle : (c : PlaybackController W) → c.timer.active ≡ false → timeout c ≡ (c, [])
  unfolding timeout
  timeout_idle c h = ground arith

  -- A timer that is not active emits nothing.
  timeouts_idle :
      (n : ℕ) (c : PlaybackController W) → c.timer.active ≡ false → timeouts n c ≡ (c, [])
  unfolding timeouts
  timeouts_idle zero c h = refl
  timeouts_idle (suc n) c h = simp (timeout_idle c h, timeouts_idle n c h) refl

  -- A new player has nothing to play: no method but set_speed changes it, and its timer is off.
  pub new_playback_idle :
      let c : PlaybackController W = new_playback in
      (start c ≡ c) × (pause c ≡ c) × (stop c ≡ c) × (load_records [] c ≡ c) × (timeout c ≡ (c, []))
  unfolding start start_with pause stop load_records timeout
  new_playback_idle = (refl, refl, refl, refl, refl)

  -- The signals are the wanted ones, the timer is off, and the index is behind the last record.
  pub record IsPlayed (c : PlaybackController W) (out wanted : List (Signal W)) (n : ℕ)
      : Type 0 where
    pub signals : out ≡ wanted
    pub idle : c.timer.active ≡ false
    pub index : c.current_index ≡ n

  pub load_records-loaded :
      (rs : List (HistoricalMetricRecord W)) (c : PlaybackController W)
      → ((load_records rs c).records ≡ rs) × ((load_records rs c).current_index ≡ 0)
  unfolding load_records
  load_records-loaded rs c = (refl, refl)

  abbrev playing : List (HistoricalMetricRecord W) → ℕ → W → ℤ → PlaybackController W
  playing all i speed interval = record {
    records = all;
    current_index = i;
    speed = speed;
    timer = record { active = true; interval = interval };
  }

  timeouts_next :
      (n : ℕ) (x : HistoricalMetricRecord W) (all : List (HistoricalMetricRecord W)) (i : ℕ)
      (speed : W) (interval : ℤ)
      → get_elem? all i ≡ some x
      → let (end, out) = timeouts n (playing all (i + 1) speed interval) in
        timeouts (suc n) (playing all i speed interval) ≡ (end, playback_record x ∷ out)
  unfolding timeouts timeout tick tick_at
  timeouts_next n x all i speed interval h = rw h refl

  timeouts_last :
      (n : ℕ) (all : List (HistoricalMetricRecord W)) (i : ℕ) (speed : W) (interval : ℤ)
      → get_elem? all i ≡ none
      → let done : PlaybackController W = record (playing all i speed interval) {
        timer = record { active = false; interval = interval };
      } in
        timeouts (suc n) (playing all i speed interval) ≡ (done, playback_finished ∷ [])
  unfolding timeouts timeout tick tick_at
  timeouts_last n all i speed interval h =
      let done : PlaybackController W = record (playing all i speed interval) {
        timer = record { active = false; interval = interval };
      } in
      rw h (rw (timeouts_idle n done refl) refl)

  play_rest :
      (k : ℕ) (seen rest all : List (HistoricalMetricRecord W)) (i : ℕ) (speed : W) (interval : ℤ)
      → all ≡ seen ++ rest
      → i ≡ length seen
      → let (end, out) = timeouts (suc (length rest) + k) (playing all i speed interval) in
        IsPlayed end out (map playback_record rest ++ (playback_finished ∷ [])) (length all)
  play_rest k seen [] all i speed interval a e =
      let none_left : get_elem? all i ≡ none = rw (a, append-nil seen, e) (get_elem?_end seen) in
      let size : suc (length {A = HistoricalMetricRecord W} []) + k ≡ suc k = omega arith in
      rw (size, timeouts_last k all i speed interval none_left)
        (record {
          signals = refl;
          idle = refl;
          index = e ∙ ap length (sym (append-nil seen) ∙ sym a);
        })
  play_rest k seen (x ∷ rest) all i speed interval a e =
      let next : get_elem? all i ≡ some x = rw (a, e) (get_elem?-length seen x rest) in
      let size : suc (length (x ∷ rest)) + k ≡ suc (suc (length rest) + k) = omega arith in
      let v =
        play_rest k (seen ++ (x ∷ [])) rest all (i + 1) speed interval
          (a ∙ sym (append_assoc seen (x ∷ []) rest))
          (omega (arith, length-append seen (x ∷ []))) in
      rw (size, timeouts_next (suc (length rest) + k) x all i speed interval next)
        (record {
          signals = ap (◌∷◌ (playback_record x)) v.signals;
          idle = v.idle;
          index = v.index;
        })

  -- Loading one or more records into any controller and starting it: after one interval for each record
  -- and one more, or any number more, exactly the loaded records were signalled, in order and from the
  -- first, then the end, once; the timer is off and the index is behind the last record.
  pub play_all :
      (k : ℕ) (r : HistoricalMetricRecord W) (rs : List (HistoricalMetricRecord W))
      (c : PlaybackController W)
      → let (end, out) = timeouts (suc (length (r ∷ rs)) + k) (start (load_records (r ∷ rs) c)) in
        IsPlayed end out
          (map playback_record (r ∷ rs) ++ (playback_finished ∷ []))
          (length (r ∷ rs))
  unfolding start start_with load_records
  play_all k r rs c = play_rest k [] (r ∷ rs) (r ∷ rs) 0 c.speed _ refl refl

  start_some :
      (r : HistoricalMetricRecord W) (rs all : List (HistoricalMetricRecord W))
      (c : PlaybackController W)
      → all ≡ r ∷ rs
      → start_with all c ≡ playing c.records c.current_index c.speed (interval_of c.speed)
  unfolding start_with
  start_some r rs all c e = rw e refl

  -- Starting again a controller that has played all of its records, of which there are some, without a
  -- stop between: no record is signalled, only the end, once, and the timer is off.
  pub play_again :
      (k : ℕ) (r : HistoricalMetricRecord W) (rs : List (HistoricalMetricRecord W))
      (c : PlaybackController W)
      → c.records ≡ r ∷ rs
      → c.current_index ≡ length c.records
      → let (end, out) = timeouts (1 + k) (start c) in
        IsPlayed end out (playback_finished ∷ []) (length c.records)
  unfolding start
  play_again k r rs c e i = rw (start_some r rs c.records c e) (
      play_rest k c.records [] c.records c.current_index c.speed (interval_of c.speed)
        (sym (append-nil c.records)) i)
