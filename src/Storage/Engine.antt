-- ===== src/Storage/Engine.antt =====
-- The engine as a log: what is stored is found again by its time.
use mathlib.Core.List.{append_assoc, append-nil}
use sys_scope.Base.{
  ℕ, ◌≡◌, refl, sym, ap, ◌∙◌, inl, inr, Bool, true, false, List, [], ◌∷◌, ◌++◌, map, arith, Text,
  codes, keep, Bool-cases, if◌then◌else◌,
}
use sys_scope.Core.Result.{Result, ok, error}
use sys_scope.Core.Snapshot.{MetricSnapshot}
use sys_scope.Analytics.Correlation.{Diagnosis}
use sys_scope.Storage.{
  mock_store_snapshot, mock_query_history, Store, HistoricalMetricRecord, HistoricalDiagnosisRecord,
  record_of, diagnosis_record_of, store_snapshot, store_diagnosis, query_history, query_diagnoses,
  metrics_between, diagnoses_between, in_range, uninitialized, closed, initialize,
}

module _ {W : Type 0} where
  metrics_between-keep :
      (from to : ℕ) (rs out : List (HistoricalMetricRecord W))
      → metrics_between from to rs out
        ≡ out ++ keep (λ (r : HistoricalMetricRecord W). in_range from to r.timestamp_ns) rs
  unfolding metrics_between
  metrics_between-keep from to [] out = sym (append-nil out)
  metrics_between-keep from to (r ∷ rs) out = elim (Bool-cases (in_range from to r.timestamp_ns)) [
    | inl e ↦
        rw (e, keep)
          (metrics_between-keep from to rs (out ++ (r ∷ [])) ∙ append_assoc out (r ∷ []) _)
    | inr e ↦ rw (e, keep) (metrics_between-keep from to rs out)
  ]

  diagnoses_between-append :
      (from to : ℕ) (rs : List (HistoricalDiagnosisRecord W)) (r : HistoricalDiagnosisRecord W)
      (out : List (HistoricalDiagnosisRecord W))
      → diagnoses_between from to (rs ++ (r ∷ [])) out ≡ (
          if in_range from to r.timestamp_ns
          then diagnoses_between from to rs out ++ (r ∷ [])
          else diagnoses_between from to rs out)
  unfolding diagnoses_between
  diagnoses_between-append from to [] r out = refl
  diagnoses_between-append from to (x ∷ rs) r out =
      diagnoses_between-append from to rs r
        (if in_range from to x.timestamp_ns then out ++ (x ∷ []) else out)

  -- Storing a list of snapshots, in order.
  pub store_all : List (MetricSnapshot W) → Store W → Store W
  store_all [] s = s
  store_all (x ∷ xs) s = store_all xs (store_snapshot x s).1

  store_snapshot-ok :
      (x : MetricSnapshot W) (s : Store W)
      → s.initialized ≡ true
      → ((store_snapshot x s).1.metric_store ≡ s.metric_store ++ (record_of x ∷ []))
        × ((store_snapshot x s).1.initialized ≡ true)
  unfolding store_snapshot
  store_snapshot-ok x s h = ground arith

  store_all-metrics :
      (xs : List (MetricSnapshot W)) (s : Store W)
      → s.initialized ≡ true
      → (store_all xs s).metric_store ≡ s.metric_store ++ map record_of xs
  unfolding store_all
  store_all-metrics [] s h = sym (append-nil s.metric_store)
  store_all-metrics (x ∷ xs) s h =
      let one = store_snapshot-ok x s h in
      store_all-metrics xs (store_snapshot x s).1 one.1
      ∙ ap (λ (l : List (HistoricalMetricRecord W)). l ++ map record_of xs) one.0
      ∙ append_assoc s.metric_store (record_of x ∷ []) (map record_of xs)

  keep-map-record_of :
      (from to : ℕ) (xs : List (MetricSnapshot W))
      → keep (λ (r : HistoricalMetricRecord W). in_range from to r.timestamp_ns) (map record_of xs)
        ≡ map record_of (keep (λ (x : MetricSnapshot W). in_range from to x.timestamp) xs)
  unfolding record_of
  keep-map-record_of from to [] = refl
  keep-map-record_of from to (x ∷ xs) = elim (Bool-cases (in_range from to x.timestamp)) [
    | inl e ↦ rw (e, keep) (ap (◌∷◌ (record_of x)) (keep-map-record_of from to xs))
    | inr e ↦ rw (e, keep) (keep-map-record_of from to xs)
  ]

  pub record_of-value : (x : MetricSnapshot W) → (record_of x).value ≡ x.cpu.total_utilization
  unfolding record_of
  record_of-value x = refl

  -- What a stored snapshot shows of itself.
  pub record_of-shown :
      (x : MetricSnapshot W)
      → record_of x ≡ record {
        timestamp_ns = x.timestamp;
        metric_type = codes "cpu_utilization";
        entity = codes "system";
        value = x.cpu.total_utilization;
        unit = codes "%";
        source = codes "procfs";
      }
  unfolding record_of
  record_of-shown x = refl

  -- An engine that is initialized and holds no metric gives back, for every metric type, the records of
  -- exactly those stored snapshots whose time lies in the range, both ends included, in the order in
  -- which they were stored.
  pub query_history-store_all :
      (metric_type : Text) (from to : ℕ) (xs : List (MetricSnapshot W)) (s : Store W)
      → s.initialized ≡ true
      → s.metric_store ≡ []
      → query_history metric_type from to (store_all xs s)
        ≡ ok (map record_of (keep (λ (x : MetricSnapshot W). in_range from to x.timestamp) xs))
  unfolding query_history
  query_history-store_all metric_type from to xs s h e = ap ok (
      metrics_between-keep from to (store_all xs s).metric_store []
      ∙ ap (keep (λ (r : HistoricalMetricRecord W). in_range from to r.timestamp_ns)) (
          store_all-metrics xs s h
          ∙ ap (λ (l : List (HistoricalMetricRecord W)). l ++ map record_of xs) e)
      ∙ keep-map-record_of from to xs)

  ok_injective : {a b : List (HistoricalDiagnosisRecord W)} → ok a ≡ ok b → a ≡ b
  ok_injective h = cc

  between :
      (b : Bool) (r : HistoricalDiagnosisRecord W) {xs old : List (HistoricalDiagnosisRecord W)}
      → xs ≡ old
      → (if b then xs ++ (r ∷ []) else xs) ≡ (if b then old ++ (r ∷ []) else old)
  between b r e = rw e refl

  -- A diagnosis that is stored in an initialized engine is the last of every query whose range holds
  -- its time, behind what that query found before, and in no other query; the metrics are not touched.
  pub query_diagnoses-store :
      (x : Diagnosis W) (time from to : ℕ) (s : Store W) (old : List (HistoricalDiagnosisRecord W))
      → s.initialized ≡ true
      → query_diagnoses from to s ≡ ok old
      → (query_diagnoses from to (store_diagnosis x time s).1
          ≡ ok (if in_range from to time then old ++ (diagnosis_record_of x time ∷ []) else old))
        × ((store_diagnosis x time s).0 ≡ ok true)
        × ((store_diagnosis x time s).1.metric_store ≡ s.metric_store)
  unfolding query_diagnoses store_diagnosis
  query_diagnoses-store x time from to s old h q =
      let r = diagnosis_record_of x time in
      let added = diagnoses_between-append from to s.diagnosis_store r [] in
      rw h (
        ap ok (
            added
            ∙ unfold diagnosis_record_of in between (in_range from to time) r (ok_injective q)),
        refl,
        refl,
      )

  -- An engine that is not initialized refuses to store, with the same error, and keeps its state.
  pub store_uninitialized :
      (snapshot : MetricSnapshot W) (x : Diagnosis W) (time : ℕ) (s : Store W)
      → s.initialized ≡ false
      → (store_snapshot snapshot s ≡ (error uninitialized, s))
        × (store_diagnosis x time s ≡ (error uninitialized, s))
  unfolding store_snapshot store_diagnosis
  store_uninitialized snapshot x time s h = rw h (refl, refl)

  abbrev pub within :
      ℕ → ℕ → Result (List (HistoricalMetricRecord W)) → Result (List (HistoricalMetricRecord W))
  within from to (ok rs) =
      ok (keep (λ (r : HistoricalMetricRecord W). in_range from to r.timestamp_ns) rs)
  within from to (error e) = error e

  -- On an initialized store the mock stores a snapshot as the engine does; and what the engine finds is
  -- what the mock finds less the records outside of the range, which the mock does not look at.
  pub query_history-mock :
      (metric_type : Text) (from to : ℕ) (x : MetricSnapshot W) (s : Store W)
      → s.initialized ≡ true
      → (mock_store_snapshot x s ≡ store_snapshot x s)
        × (query_history metric_type from to s
            ≡ within from to (mock_query_history metric_type from to s))
  unfolding query_history store_snapshot mock_store_snapshot mock_query_history
  query_history-mock metric_type from to x s h =
      (rw h refl, ap ok (metrics_between-keep from to s.metric_store []))

-- An engine to which nothing was stored finds nothing.
pub query_history-initialize :
    {W : Type 0} (path metric_type : Text) (from to : ℕ)
    → query_history metric_type from to (initialize {W = W} path closed).1 ≡ ok []
unfolding query_history initialize metrics_between
query_history-initialize path metric_type from to = refl
