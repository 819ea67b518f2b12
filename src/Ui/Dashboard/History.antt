-- ===== src/Ui/Dashboard/History.antt =====
-- The history of events as the last fifty of all that were diagnosed.
use mathlib.Core.List.{append_assoc, append-nil}
use sys_scope.Base.{
  ℕ, ◌≤◌, ◌≡◌, refl, sym, ap, ◌∙◌, inl, inr, List, [], ◌∷◌, ◌++◌, map, length, Bool-cases,
  if◌then◌else◌, push_all_lem, last_of, last_of-append, last_of-short, length-last_of, Double,
}
use sys_scope.Core.Result.{Result, Outcome, returns, throws, Outcome-cases}
use sys_scope.Core.Snapshot.{MetricSnapshot, ProcessSnapshot}
use sys_scope.Analytics.Correlation.{Diagnosis, analyze}
use sys_scope.Ui.Terminal.{read_key}
use sys_scope.Ui.Screens.{
  Env, DashboardScreen, overview, cpu_cores, memory_and_disk, processes, diagnostics,
}
use sys_scope.Ui.Dashboard.{
  Look, Dashboard, collect_baselines, after_process_baseline, rest_baselines, collect_snapshot,
  after_processes, record_diagnoses, print_screen, draw, show, show_after, render_snapshot,
}
use sys_scope.Ui.Dashboard.Loop.{Round, is_quit, switch, loop}

abbrev pub Events : Type 0 → Type 0
Events W = List (ℕ × Diagnosis W)

module _ {W : Type 0} ⦃d : Double W⦄ where
  -- The diagnoses of a snapshot with its time.
  abbrev events_of : Outcome (MetricSnapshot W) → Events W
  events_of (throws m) = []
  events_of (returns s) = map (λ (x : Diagnosis W). (s.timestamp, x)) (analyze s)

  abbrev events_after : Look → Outcome (Unit {0}) → Dashboard W → Events W
  events_after look (throws m) db = []
  events_after look (returns u) db = events_of (collect_snapshot look db).0

  -- What one round diagnoses; nothing where a collector throws.
  abbrev pub round_events : Round → Dashboard W → Events W
  round_events r db =
      let (o, db') =
        collect_baselines r.before
          (record db { current_screen = switch (read_key r.keyboard) db.current_screen }) in
      events_after r.after o db'

  after_process_baseline-history :
      {A : Type 0} (look : Look) (o : Outcome A) (db : Dashboard W)
      → (after_process_baseline look o db).1.diagnostic_history ≡ db.diagnostic_history
  unfolding after_process_baseline rest_baselines
  after_process_baseline-history look (throws m) db = refl
  after_process_baseline-history look (returns a) db = refl

  collect_baselines-history :
      (look : Look) (db : Dashboard W)
      → (collect_baselines look db).1.diagnostic_history ≡ db.diagnostic_history
  unfolding collect_baselines
  collect_baselines-history look db = after_process_baseline-history look _ _

  after_processes-history :
      (look : Look) (o : Outcome (Result (ProcessSnapshot W))) (s : MetricSnapshot W)
      (db : Dashboard W)
      → (after_processes look o s db).1.diagnostic_history ≡ db.diagnostic_history
  unfolding after_processes
  after_processes-history look (throws m) s db = refl
  after_processes-history look (returns a) s db = refl

  collect_snapshot-history :
      (look : Look) (db : Dashboard W)
      → (collect_snapshot look db).1.diagnostic_history ≡ db.diagnostic_history
  unfolding collect_snapshot
  collect_snapshot-history look db = after_processes-history look _ _ _

  draw-history :
      (env : Env W) (screen : DashboardScreen) (s : MetricSnapshot W) (ds : List (Diagnosis W))
      (db : Dashboard W)
      → (draw env screen s ds db).diagnostic_history ≡ db.diagnostic_history
  unfolding draw print_screen
  draw-history env overview s ds db = refl
  draw-history env cpu_cores s ds db = refl
  draw-history env memory_and_disk s ds db = refl
  draw-history env processes s ds db = refl
  draw-history env diagnostics s ds db = refl

  -- Nothing new keeps a history that is short enough.
  nothing_new : (h : Events W) → length h ≤ 50 → h ≡ last_of 50 (h ++ [])
  nothing_new h k = sym (last_of-short 50 h k) ∙ ap (last_of 50) (sym (append-nil h))

  show-history :
      (env : Env W) (screen : DashboardScreen) (o : Outcome (MetricSnapshot W)) (db : Dashboard W)
      → length db.diagnostic_history ≤ 50
      → (show env screen o db).1.diagnostic_history
        ≡ last_of 50 (db.diagnostic_history ++ events_of o)
  unfolding show record_diagnoses
  show-history env screen (throws m) db h = nothing_new db.diagnostic_history h
  show-history env screen (returns s) db h =
      draw-history env screen s (analyze s) _ ∙ push_all_lem 50 _ db.diagnostic_history h

  show_after-history :
      (env : Env W) (screen : DashboardScreen) (look : Look) (o : Outcome (Unit {0}))
      (db : Dashboard W)
      → length db.diagnostic_history ≤ 50
      → (show_after env screen look o db).1.diagnostic_history
        ≡ last_of 50 (db.diagnostic_history ++ events_after look o db)
  unfolding show_after
  show_after-history env screen look (throws m) db h = nothing_new db.diagnostic_history h
  show_after-history env screen look (returns u) db h =
      let (o, db') = collect_snapshot look db in
      let same : db'.diagnostic_history ≡ db.diagnostic_history =
        collect_snapshot-history look db in
      show-history env screen o db' (rw same h)
      ∙ ap (λ (old : Events W). last_of 50 (old ++ events_of o)) same

  -- The history behind a drawn round.
  abbrev drawn_history : Env W → Round → Dashboard W → Events W
  drawn_history env r db =
      let screen = switch (read_key r.keyboard) db.current_screen in
      (render_snapshot env screen r.before r.after db).1.diagnostic_history

  render_snapshot-history :
      (env : Env W) (r : Round) (db : Dashboard W)
      → length db.diagnostic_history ≤ 50
      → drawn_history env r db ≡ last_of 50 (db.diagnostic_history ++ round_events r db)
  unfolding render_snapshot
  render_snapshot-history env r db h =
      let screen = switch (read_key r.keyboard) db.current_screen in
      let start = record db { current_screen = screen } in
      let (o, db') = collect_baselines r.before start in
      let same : db'.diagnostic_history ≡ db.diagnostic_history =
        collect_baselines-history r.before start in
      show_after-history env screen r.after o db' (rw same h)
      ∙ ap (λ (old : Events W). last_of 50 (old ++ events_after r.after o db')) same

  -- What is diagnosed until the loop ends.
  pub loop_events : Env W → List Round → Dashboard W → Events W
  loop_events env [] db = []
  loop_events env (r ∷ rs) db =
      let key = read_key r.keyboard in
      let drawn = render_snapshot env (switch key db.current_screen) r.before r.after db in
      let later : Events W = elim drawn.0 [
        | returns u ↦ loop_events env rs drawn.1
        | throws m ↦ []
      ] in
      if is_quit key then [] else round_events r db ++ later

  -- From a history of at most 50 events, after any rounds of the loop the history holds the last 50 of
  -- the events that it held and of all that the rounds diagnosed, in order, each with its time.
  pub loop-history :
      (env : Env W) (rs : List Round) (db : Dashboard W)
      → length db.diagnostic_history ≤ 50
      → (loop env rs db).1.diagnostic_history
        ≡ last_of 50 (db.diagnostic_history ++ loop_events env rs db)
  unfolding loop loop_events
  loop-history env [] db h = nothing_new db.diagnostic_history h
  loop-history env (r ∷ rs) db h =
      let screen = switch (read_key r.keyboard) db.current_screen in
      let drawn = render_snapshot env screen r.before r.after db in
      let old = db.diagnostic_history in
      let new = round_events r db in
      let step : drawn.1.diagnostic_history ≡ last_of 50 (old ++ new) =
        render_snapshot-history env r db h in
      elim (Bool-cases (is_quit (read_key r.keyboard))) [
        | inl e ↦ rw e (nothing_new old h)
        | inr e ↦ elim (Outcome-cases drawn.0) [
          | inl (u, o) ↦
              rw (e, o)
                (loop-history env rs drawn.1 (rw step (length-last_of 50 (old ++ new)))
                  ∙ ap (λ (l : Events W). last_of 50 (l ++ loop_events env rs drawn.1)) step
                  ∙ last_of-append 50 (old ++ new) (loop_events env rs drawn.1)
                  ∙ ap (last_of 50) (append_assoc old new (loop_events env rs drawn.1)))
          | inr (m, o) ↦
              rw (e, o) (step ∙ ap (λ (l : Events W). last_of 50 (old ++ l)) (sym (append-nil new)))
        ]
      ]
