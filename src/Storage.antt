-- ===== src/Storage.antt =====
-- include/sysscope/storage/persistence.hpp and sqlite_persistence.cpp: the engine that the program uses,
-- and the mock engine of the tests, whose operations begin with `mock_`.
pub mod Engine
mod Tests
use sys_scope.Base.{
  ℕ, ◌≡◌, Bool, true, false, ◌&&◌, List, [], ◌∷◌, ◌++◌, Text, codes, leb, keep, if◌then◌else◌,
}
use sys_scope.Core.Result.{Result, ok, error}
use sys_scope.Core.Snapshot.{MetricSnapshot}
use sys_scope.Analytics.Correlation.{Diagnosis, Evidence}

pub record HistoricalMetricRecord (W : Type 0) : Type 0 where
  pub timestamp_ns : ℕ
  pub metric_type : Text
  pub entity : Text
  pub value : W
  pub unit : Text
  pub source : Text

pub record HistoricalDiagnosisRecord (W : Type 0) : Type 0 where
  pub timestamp_ns : ℕ
  pub condition : Text
  pub confidence : W
  pub evidence_summary : Text

-- The state of both engines; MockPersistenceEngine has no path.
pub record Store (W : Type 0) : Type 0 where
  pub db_path : Text
  pub initialized : Bool
  pub metric_store : List (HistoricalMetricRecord W)
  pub diagnosis_store : List (HistoricalDiagnosisRecord W)

abbrev pub closed : {W : Type 0} → Store W
closed = record { db_path = []; initialized = false; metric_store = []; diagnosis_store = [] }

abbrev pub uninitialized : Text
uninitialized = codes "SqlitePersistenceEngine uninitialized."

abbrev pub in_range : ℕ → ℕ → ℕ → Bool
in_range from to t = leb from t && leb t to

module _ {W : Type 0} where
  pub initialize : Text → Store W → Bool × Store W
  initialize path s = (true, record s { db_path = path; initialized = true })

  pub record_of : MetricSnapshot W → HistoricalMetricRecord W
  record_of snapshot = record {
    timestamp_ns = snapshot.timestamp;
    metric_type = codes "cpu_utilization";
    entity = codes "system";
    value = snapshot.cpu.total_utilization;
    unit = codes "%";
    source = codes "procfs";
  }

  pub store_snapshot : MetricSnapshot W → Store W → Result Bool × Store W
  store_snapshot snapshot s =
      if s.initialized
      then (ok true, record s { metric_store = s.metric_store ++ (record_of snapshot ∷ []) })
      else (error uninitialized, s)

  -- The explanation of the first piece of evidence, if there is one.
  summary_of : List (Evidence W) → Text
  summary_of [] = []
  summary_of (e ∷ es) = e.explanation

  pub diagnosis_record_of : Diagnosis W → ℕ → HistoricalDiagnosisRecord W
  unfolding summary_of
  diagnosis_record_of diagnosis timestamp_ns = record {
    timestamp_ns = timestamp_ns;
    condition = diagnosis.condition;
    confidence = diagnosis.confidence;
    evidence_summary = summary_of diagnosis.evidence;
  }

  pub store_diagnosis : Diagnosis W → ℕ → Store W → Result Bool × Store W
  store_diagnosis diagnosis timestamp_ns s =
      if s.initialized
      then (
        ok true,
        record s {
          diagnosis_store = s.diagnosis_store ++ (diagnosis_record_of diagnosis timestamp_ns ∷ []);
        },
      )
      else (error uninitialized, s)

  metrics_between :
      ℕ
      → ℕ
      → List (HistoricalMetricRecord W)
      → List (HistoricalMetricRecord W)
      → List (HistoricalMetricRecord W)
  metrics_between from to [] result = result
  metrics_between from to (r ∷ rs) result =
      metrics_between from to rs
        (if in_range from to r.timestamp_ns then result ++ (r ∷ []) else result)

  -- `metric_type` is not looked at.
  pub query_history : Text → ℕ → ℕ → Store W → Result (List (HistoricalMetricRecord W))
  unfolding metrics_between
  query_history metric_type from to s = ok (metrics_between from to s.metric_store [])

  diagnoses_between :
      ℕ
      → ℕ
      → List (HistoricalDiagnosisRecord W)
      → List (HistoricalDiagnosisRecord W)
      → List (HistoricalDiagnosisRecord W)
  diagnoses_between from to [] result = result
  diagnoses_between from to (r ∷ rs) result =
      diagnoses_between from to rs
        (if in_range from to r.timestamp_ns then result ++ (r ∷ []) else result)

  pub query_diagnoses : ℕ → ℕ → Store W → Result (List (HistoricalDiagnosisRecord W))
  unfolding diagnoses_between
  query_diagnoses from to s = ok (diagnoses_between from to s.diagnosis_store [])

abbrev mock_uninitialized : Text
mock_uninitialized = codes "Persistence engine uninitialized."

module _ {W : Type 0} where
  mock_initialize : Text → Store W → Bool × Store W
  mock_initialize path s = (true, record s { initialized = true })

  pub mock_store_snapshot : MetricSnapshot W → Store W → Result Bool × Store W
  mock_store_snapshot snapshot s =
      if s.initialized
      then (ok true, record s { metric_store = s.metric_store ++ (record_of snapshot ∷ []) })
      else (error mock_uninitialized, s)

  mock_store_diagnosis : Diagnosis W → ℕ → Store W → Result Bool × Store W
  mock_store_diagnosis diagnosis timestamp_ns s =
      if s.initialized
      then (
        ok true,
        record s {
          diagnosis_store = s.diagnosis_store ++ (diagnosis_record_of diagnosis timestamp_ns ∷ []);
        },
      )
      else (error mock_uninitialized, s)

  -- The mock looks at no argument of a query.
  pub mock_query_history : Text → ℕ → ℕ → Store W → Result (List (HistoricalMetricRecord W))
  mock_query_history metric_type from to s = ok s.metric_store

  mock_query_diagnoses : ℕ → ℕ → Store W → Result (List (HistoricalDiagnosisRecord W))
  mock_query_diagnoses from to s = ok s.diagnosis_store
