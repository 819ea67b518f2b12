-- ===== src/Ui/Qt/Incidents.antt =====
-- ui/qt/diagnosis_model.cpp and pages/diagnostics_page.cpp: the list of incidents and the inspector.
pub mod Listed
mod Tests
use sys_scope.Base.{
  ℕ, Bool, List, [], ◌∷◌, ◌++◌, Option, none, some, Text, codes, length, get_elem?, ℤ, pos, negsuc,
  Double,
}
use sys_scope.Core.Snapshot.{MetricSnapshot}
use sys_scope.Core.Timestamp.{seconds}
use sys_scope.Analytics.Correlation.{Diagnosis, Evidence, analyze}
use sys_scope.Util.{format_metric}
use sys_scope.Ui.Qt.Labels.{Strings}
use sys_scope.Ui.Qt.Events.{
  DiagnosisEvent, DiagnosisModel, DiagnosisType, Severity, cpu_scheduling_contention, high,
  add_incident, no_incidents,
}

-- The labels of the inspector.
pub record Inspector : Type 0 where
  pub condition : Text
  pub severity : Text
  pub duration : Text
  pub rules : Text
  pub evidence : Text

pub record DiagnosticsPage (W : Type 0) : Type 0 where
  pub diagnosis_model : DiagnosisModel W
  pub incident_list : List Text
  pub inspector : Inspector

abbrev newline : Text
newline = 10 ∷ []

-- `setup_ui`
abbrev pub new_page : {W : Type 0} → DiagnosticsPage W
new_page = record {
  diagnosis_model = no_incidents;
  incident_list = [];
  inspector = record {
    condition = codes "Condition: No Incident Selected";
    severity = codes "Severity: NORMAL";
    duration = codes "Duration: 0.0 s";
    rules = codes "Triggered Rules:" ++ (newline ++ codes "- None");
    evidence = codes "Evidence Summary:" ++ (newline ++ codes "- System operating normally.");
  };
}

module _ {W : Type 0} ⦃d : Double W⦄ (strings : Strings W) where
  open strings use {arg, arg_int, arg_double}

  pub event_of : ℕ → Diagnosis W → DiagnosisEvent W
  event_of timestamp diag = record {
    start_time = timestamp;
    end_time = timestamp;
    type = cpu_scheduling_contention;
    severity = high;
    condition = diag.condition;
    triggered_rules = codes "Rule: Cross-resource correlation threshold exceeded" ∷ [];
    evidence = diag.evidence;
  }

  pub item_text : ℕ → Diagnosis W → Text
  item_text timestamp diag =
      arg_int
        (arg (arg_double (codes "[%1 s] %2 — %3 evidence signals") (seconds timestamp))
          diag.condition)
        (length diag.evidence)

  pub add_diagnoses : ℕ → List (Diagnosis W) → DiagnosticsPage W → DiagnosticsPage W
  unfolding event_of item_text
  add_diagnoses timestamp [] p = p
  add_diagnoses timestamp (diag ∷ ds) p = add_diagnoses timestamp ds (record p {
    diagnosis_model = (add_incident (event_of timestamp diag) p.diagnosis_model).0;
    incident_list = p.incident_list ++ (item_text timestamp diag ∷ []);
  })

  pub on_snapshot_updated : MetricSnapshot W → DiagnosticsPage W → DiagnosticsPage W
  unfolding add_diagnoses
  on_snapshot_updated snapshot p = add_diagnoses snapshot.timestamp (analyze snapshot) p

  rules_text : List Text → Text
  rules_text [] = []
  rules_text (r ∷ rs) = arg (codes "- %1" ++ newline) r ++ rules_text rs

  evidence_text : List (Evidence W) → Text
  evidence_text [] = []
  evidence_text (ev ∷ es) =
      arg
        (arg (arg (codes "- %1 (Observed: %2, Threshold: %3)" ++ newline) ev.explanation)
          (format_metric ev.observed_value 2))
        (format_metric ev.threshold 2)
      ++ evidence_text es

  pub inspect : DiagnosisEvent W → Inspector
  unfolding rules_text evidence_text
  inspect event = record {
    condition = arg (codes "Condition: %1") event.condition;
    severity = codes "Severity: HIGH";
    duration = codes "Duration: Instantaneous Alert";
    rules = codes "Triggered Rules:" ++ (newline ++ rules_text event.triggered_rules);
    evidence = codes "Evidence Summary:" ++ (newline ++ evidence_text event.evidence);
  }

  pub show_event : Option (DiagnosisEvent W) → DiagnosticsPage W → DiagnosticsPage W
  unfolding inspect
  show_event none p = p
  show_event (some event) p = record p { inspector = inspect event }

  -- `row >= 0 && row < size`: nothing is shown for any other row.
  pub on_incident_selected : ℤ → DiagnosticsPage W → DiagnosticsPage W
  unfolding show_event
  on_incident_selected (negsuc n) p = p
  on_incident_selected (pos row) p =
      show_event (get_elem? p.diagnosis_model.historical_incidents row) p
