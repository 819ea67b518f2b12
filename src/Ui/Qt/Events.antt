-- ===== src/Ui/Qt/Events.antt =====
-- ui/qt/diagnosis_model.hpp: an event, and the two lists of the model.
use sys_scope.Base.{ℕ, List, [], ◌∷◌, ◌++◌, Text}
use sys_scope.Analytics.Correlation.{Evidence}

pub data DiagnosisType : Type 0 where
  cpu_scheduling_contention memory_pressure io_bottleneck thermal_throttling : DiagnosisType

pub data Severity : Type 0 where
  low medium high critical : Severity

pub record DiagnosisEvent (W : Type 0) : Type 0 where
  pub start_time : ℕ
  pub end_time : ℕ
  pub type : DiagnosisType
  pub severity : Severity
  pub condition : Text
  pub triggered_rules : List Text
  pub evidence : List (Evidence W)

pub record DiagnosisModel (W : Type 0) : Type 0 where
  pub active_incidents : List (DiagnosisEvent W)
  pub historical_incidents : List (DiagnosisEvent W)

abbrev pub no_incidents : {W : Type 0} → DiagnosisModel W
no_incidents = record { active_incidents = []; historical_incidents = [] }

-- The signal is the event itself.
unfoldable pub add_incident :
    {W : Type 0} → DiagnosisEvent W → DiagnosisModel W → DiagnosisModel W × DiagnosisEvent W
add_incident event m = (
  record {
    active_incidents = m.active_incidents ++ (event ∷ []);
    historical_incidents = m.historical_incidents ++ (event ∷ []);
  },
  event,
)
