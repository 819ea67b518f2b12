-- ===== src/Ui/Qt/Telemetry.antt =====
-- ui/qt/telemetry_model.cpp and telemetry_bridge.cpp. Each method of the model holds the mutex. A slot
-- returns the new state with the signals that it emits.
pub mod Ring
mod Tests
use sys_scope.Base.{Bool, true, false, List, [], ◌∷◌, ◌++◌, push_capped, Double}
use sys_scope.Core.Snapshot.{MetricSnapshot, blank_snapshot}
use sys_scope.Ui.Qt.Events.{DiagnosisEvent}

pub record TelemetryCapabilities : Type 0 where
  pub thermal : Bool
  pub gpu : Bool
  pub npu : Bool
  pub dsp : Bool
  pub network : Bool
  pub disk : Bool

pub record TelemetryModel (W : Type 0) : Type 0 where
  pub latest : MetricSnapshot W
  pub history_buffer : List (MetricSnapshot W)
  pub capabilities : TelemetryCapabilities

pub data Signal (W : Type 0) : Type 0 where
  snapshot_updated : MetricSnapshot W → Signal W
  diagnosis_raised : DiagnosisEvent W → Signal W

abbrev pub new_model : {W : Type 0} ⦃d : Double W⦄ → TelemetryModel W
new_model = record {
  latest = blank_snapshot 0;
  history_buffer = [];
  capabilities = record {
    thermal = false;
    gpu = false;
    npu = false;
    dsp = false;
    network = true;
    disk = true;
  };
}

-- QtTelemetryBridge: `pending` are the posted snapshots whose queued slot has not run yet.
pub record Bridge (W : Type 0) : Type 0 where
  pub pending : List (MetricSnapshot W)
  pub model : TelemetryModel W

module _ {W : Type 0} where
  -- MAX_RING_BUFFER_SIZE is 600.
  pub update_snapshot : MetricSnapshot W → TelemetryModel W → TelemetryModel W × List (Signal W)
  update_snapshot snapshot m = (
    record m { latest = snapshot; history_buffer = push_capped 600 snapshot m.history_buffer },
    snapshot_updated snapshot ∷ [],
  )

  raise_diagnosis : DiagnosisEvent W → TelemetryModel W → TelemetryModel W × List (Signal W)
  raise_diagnosis event m = (m, diagnosis_raised event ∷ [])

  pub post_snapshot : MetricSnapshot W → Bridge W → Bridge W
  post_snapshot snapshot b = record b { pending = b.pending ++ (snapshot ∷ []) }

  -- The event loop runs the slot for the oldest of them.
  pub deliver : List (MetricSnapshot W) → Bridge W → Bridge W × List (Signal W)
  unfolding update_snapshot
  deliver [] b = (b, [])
  deliver (s ∷ ss) b =
      let (model, signals) = update_snapshot s b.model in
      (record { pending = ss; model = model }, signals)

  pub dispatch : Bridge W → Bridge W × List (Signal W)
  unfolding deliver
  dispatch b = deliver b.pending b
