-- ===== src/Ui/Qt/Incidents/Listed.antt =====
-- The list of the page and the incidents of its model stay in step.
use mathlib.Core.List.{map-append}
use sys_scope.Base.{
  ℕ, ◌≡◌, sym, ap, ◌∙◌, List, [], ◌∷◌, ◌++◌, Option, none, some, map, Text, codes, length, ℤ, pos,
  negsuc, Double,
}
use sys_scope.Core.Snapshot.{MetricSnapshot}
use sys_scope.Core.Timestamp.{seconds}
use sys_scope.Analytics.Correlation.{Diagnosis, analyze}
use sys_scope.Ui.Qt.Labels.{Strings}
use sys_scope.Ui.Qt.Events.{DiagnosisEvent, add_incident}
use sys_scope.Ui.Qt.Incidents.{
  DiagnosticsPage, event_of, item_text, add_diagnoses, on_snapshot_updated, show_event,
  on_incident_selected,
}

pub data PageEvent (W : Type 0) : Type 0 where
  updates : MetricSnapshot W → PageEvent W
  selects : ℤ → PageEvent W

module _ {W : Type 0} ⦃d : Double W⦄ (strings : Strings W) where
  open strings use {arg, arg_int, arg_double}

  step : PageEvent W → DiagnosticsPage W → DiagnosticsPage W
  step (updates s) p = on_snapshot_updated strings s p
  step (selects row) p = on_incident_selected strings row p

  pub run : List (PageEvent W) → DiagnosticsPage W → DiagnosticsPage W
  unfolding step
  run [] p = p
  run (e ∷ es) p = run es (step e p)

  -- The item of an event, with its start, its condition and the number of its pieces of evidence.
  abbrev pub item_of : DiagnosisEvent W → Text
  item_of e =
      arg_int
        (arg (arg_double (codes "[%1 s] %2 — %3 evidence signals") (seconds e.start_time))
          e.condition)
        (length e.evidence)

  -- Item by item, the list shows the incidents, and all of them are active.
  pub record IsListed (p : DiagnosticsPage W) : Type 0 where
    pub items : p.incident_list ≡ map item_of p.diagnosis_model.historical_incidents
    pub active : p.diagnosis_model.active_incidents ≡ p.diagnosis_model.historical_incidents

  add_diagnoses-IsListed :
      (time : ℕ) (ds : List (Diagnosis W)) (p : DiagnosticsPage W)
      → IsListed p
      → IsListed (add_diagnoses strings time ds p)
  unfolding add_diagnoses add_incident event_of item_text
  add_diagnoses-IsListed time [] p v = v
  add_diagnoses-IsListed time (x ∷ xs) p v =
      let item = item_of (event_of strings time x) in
      add_diagnoses-IsListed time xs _ (record {
        items =
            ap (λ (l : List Text). l ++ (item ∷ [])) v.items
            ∙ sym (map-append item_of p.diagnosis_model.historical_incidents _);
        active = ap (λ (l : List (DiagnosisEvent W)). l ++ (event_of strings time x ∷ [])) v.active;
      })

  show_event-IsListed :
      (o : Option (DiagnosisEvent W)) (p : DiagnosticsPage W)
      → IsListed p
      → IsListed (show_event strings o p)
  unfolding show_event
  show_event-IsListed none p v = v
  show_event-IsListed (some e) p v = record { items = v.items; active = v.active }

  step-IsListed : (e : PageEvent W) (p : DiagnosticsPage W) → IsListed p → IsListed (step e p)
  unfolding step on_snapshot_updated on_incident_selected
  step-IsListed (updates s) p v = add_diagnoses-IsListed s.timestamp (analyze s) p v
  step-IsListed (selects (negsuc n)) p v = v
  step-IsListed (selects (pos row)) p v = show_event-IsListed _ p v

  -- From a page whose list shows its incidents, after any updates and selections, item by item the list
  -- shows the incidents of the model, with their time, condition and number of pieces of evidence, and
  -- the active incidents are the historical ones.
  pub run-IsListed :
      (es : List (PageEvent W)) (p : DiagnosticsPage W) → IsListed p → IsListed (run es p)
  unfolding run
  run-IsListed [] p v = v
  run-IsListed (e ∷ es) p v = run-IsListed es (step e p) (step-IsListed e p v)
