-- ===== src/Storage/Tests.antt =====
-- The theorems on the engines at two snapshots.
use sys_scope.Base.{◌≡◌, refl, true, [], ◌∷◌, map, codes, keep, Micro, micro_double}
use sys_scope.Core.Result.{ok}
use sys_scope.Core.Snapshot.{MetricSnapshot}
use sys_scope.Samples.{overheated}
use sys_scope.Storage.{Store, record_of, query_history, in_range}
use sys_scope.Storage.Engine.{store_all, query_history-store_all}

abbrev open_store : Store Micro
open_store = record {
  db_path = codes "sysscope.db";
  initialized = true;
  metric_store = [];
  diagnosis_store = [];
}

abbrev late : MetricSnapshot Micro
late = record overheated { timestamp = 90 }

query_history-store_all_example :
    query_history (codes "cpu") 40 60 (store_all (overheated ∷ (late ∷ [])) open_store)
    ≡ ok (
        map record_of (
          keep
            (λ (x : MetricSnapshot Micro). in_range 40 60 x.timestamp)
            (overheated ∷ (late ∷ []))))
query_history-store_all_example =
    query_history-store_all (codes "cpu") 40 60 (overheated ∷ (late ∷ [])) open_store refl refl
