-- ===== src/Ui/Qt/Chart.antt =====
-- ui/qt/chart/telemetry_chart.cpp, built with Qt Charts: the buffer and the points of the line.
pub mod Series
use sys_scope.Base.{
  ℕ, ◌+◌, Bool, true, false, List, [], ◌∷◌, ◌++◌, length, ltb, push_capped, if◌then◌else◌,
}

-- `buffer` and `series`, whose points are an index and a value.
pub record TelemetryChart (W : Type 0) : Type 0 where
  pub buffer : List W
  pub series : List (ℕ × W)

abbrev pub empty_chart : {W : Type 0} → TelemetryChart W
empty_chart = record { buffer = []; series = [] }

-- MAX_POINTS
abbrev pub max_points : ℕ
max_points = 60

module _ {W : Type 0} where
  -- `QPointF(idx++, val)`
  pub points_from : ℕ → List W → List (ℕ × W)
  points_from idx [] = []
  points_from idx (x ∷ xs) = (idx, x) ∷ points_from (idx + 1) xs

  -- `for (double val : values) buffer_.push_back(val);`
  pub push_values : List W → List W → List W
  push_values [] buffer = buffer
  push_values (x ∷ xs) buffer = push_values xs (buffer ++ (x ∷ []))

  -- `while (buffer_.size() > MAX_POINTS) buffer_.pop_front();`
  pub trim : List W → List W
  trim [] = []
  trim (x ∷ xs) = let rest = trim xs in if ltb max_points (length (x ∷ xs)) then rest else x ∷ xs

  pub update_series : List W → TelemetryChart W → TelemetryChart W
  unfolding push_values trim points_from
  update_series values c =
      let buffer = trim (push_values values []) in
      record { buffer = buffer; series = points_from 0 buffer }

  unfoldable pub append_sample : W → TelemetryChart W → TelemetryChart W
  unfolding points_from
  append_sample value c =
      let buffer = push_capped max_points value c.buffer in
      record { buffer = buffer; series = points_from 0 buffer }
