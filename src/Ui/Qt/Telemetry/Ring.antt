-- ===== src/Ui/Qt/Telemetry/Ring.antt =====
-- What the posted snapshots make of the model, however posting and delivery interleave.
use mathlib.Core.List.{append_assoc, append-nil}
use sys_scope.Base.{
  ◌≤◌, ◌≡◌, refl, sym, ap, ◌∙◌, List, [], ◌∷◌, ◌++◌, map, length, push_capped, push_capped_lem,
  last_of, last_of-append, last_of-short, length-last_of,
}
use sys_scope.Core.Snapshot.{MetricSnapshot}
use sys_scope.Ui.Qt.Telemetry.{
  TelemetryModel, Signal, snapshot_updated, Bridge, update_snapshot, post_snapshot, deliver,
  dispatch,
}

-- A poll posts a snapshot; the event loop delivers one.
pub data Event (W : Type 0) : Type 0 where
  posts : MetricSnapshot W → Event W
  dispatches : Event W

abbrev pub last_or : {A : Type 0} → A → List A → A
last_or a [] = a
last_or a (x ∷ xs) = last_or x xs

module _ {W : Type 0} where
  step : Event W → Bridge W → Bridge W × List (Signal W)
  step (posts s) b = (post_snapshot s b, [])
  step dispatches b = dispatch b

  -- The last state, and all signals in order.
  pub run : List (Event W) → Bridge W → Bridge W × List (Signal W)
  run [] b = (b, [])
  run (e ∷ es) b =
      let (b', signals) = step e b in let (end, later) = run es b' in (end, signals ++ later)

  -- All that is posted.
  abbrev pub posted : List (Event W) → List (MetricSnapshot W)
  posted [] = []
  posted (posts s ∷ es) = s ∷ posted es
  posted (dispatches ∷ es) = posted es

  -- The snapshots `ss` were delivered to the model of `b`, which becomes that of `b'`.
  pub record IsCaughtUp (b b' : Bridge W) (out : List (Signal W)) (ss : List (MetricSnapshot W))
      : Type 0 where
    pub buffer : b'.model.history_buffer ≡ last_of 600 (b.model.history_buffer ++ ss)
    pub latest : b'.model.latest ≡ last_or b.model.latest ss
    pub shown : out ≡ map snapshot_updated ss

  deliver-run :
      (es : List (Event W)) (pending : List (MetricSnapshot W)) (m : TelemetryModel W)
      → length m.history_buffer ≤ 600
      → let b : Bridge W = record { pending = pending; model = m } in
        (ss : List (MetricSnapshot W)) × (pending ++ posted es ≡ ss ++ (run es b).0.pending)
        × IsCaughtUp b (run es b).0 (run es b).1 ss
  unfolding run step post_snapshot dispatch deliver update_snapshot
  deliver-run [] pending m h = (
    [],
    append-nil pending,
    record {
      buffer =
          sym (last_of-short 600 m.history_buffer h)
          ∙ ap (last_of 600) (sym (append-nil m.history_buffer));
      latest = refl;
      shown = refl;
    },
  )
  deliver-run (posts s ∷ es) pending m h =
      let (ss, split, v) = deliver-run es (pending ++ (s ∷ [])) m h in
      (
        ss,
        sym (append_assoc pending (s ∷ []) (posted es)) ∙ split,
        record { buffer = v.buffer; latest = v.latest; shown = v.shown },
      )
  deliver-run (dispatches ∷ es) [] m h = deliver-run es [] m h
  deliver-run (dispatches ∷ es) (p ∷ ps) m h =
      let old = m.history_buffer in
      let m' : TelemetryModel W = record m { latest = p; history_buffer = push_capped 600 p old } in
      let one : push_capped 600 p old ≡ last_of 600 (old ++ (p ∷ [])) =
        push_capped_lem 600 p old h in
      let (ss, split, v) = deliver-run es ps m' (rw one (length-last_of 600 (old ++ (p ∷ [])))) in
      (
        p ∷ ss,
        ap (◌∷◌ p) split,
        record {
          buffer =
              v.buffer
              ∙ ap (λ (l : List (MetricSnapshot W)). last_of 600 (l ++ ss)) one
              ∙ last_of-append 600 (old ++ (p ∷ [])) ss
              ∙ ap (last_of 600) (append_assoc old (p ∷ []) ss);
          latest = v.latest;
          shown = ap (◌∷◌ (snapshot_updated p)) v.shown;
        },
      )

  -- However posting and delivery interleave, what waited and was posted is, in order, what was delivered
  -- and what still waits; each delivered snapshot was signalled once, in order; the model holds the last
  -- 600 of what it held and was delivered, if it held no more, and its latest snapshot is the last
  -- delivered one, or the one that it had if there is none.
  pub run-IsCaughtUp :
      (es : List (Event W)) (b : Bridge W)
      → length b.model.history_buffer ≤ 600
      → (ss : List (MetricSnapshot W)) × (b.pending ++ posted es ≡ ss ++ (run es b).0.pending)
        × IsCaughtUp b (run es b).0 (run es b).1 ss
  run-IsCaughtUp es b h = deliver-run es b.pending b.model h
