-- ===== src/Ui/Qt/Chart/Series.antt =====
-- Setting a series and appending its samples one by one give the same chart.
use mathlib.Core.List.{append_assoc, append-nil}
use sys_scope.Base.{
  suc, ◌-◌, ◌≡◌, refl, sym, ap, ◌∙◌, inl, inr, List, [], ◌∷◌, ◌++◌, arith, length, ltb, Bool-cases,
  push_all, push_all_lem, last_of, last_of-short,
}
use sys_scope.Ui.Qt.Chart.{
  TelemetryChart, max_points, empty_chart, points_from, push_values, trim, update_series,
  append_sample,
}

module _ {W : Type 0} where
  push_values_lem : (xs out : List W) → push_values xs out ≡ out ++ xs
  unfolding push_values
  push_values_lem [] out = sym (append-nil out)
  push_values_lem (x ∷ xs) out = push_values_lem xs (out ++ (x ∷ [])) ∙ append_assoc out (x ∷ []) xs

  trim_lem : (xs : List W) → trim xs ≡ last_of max_points xs
  unfolding trim
  trim_lem [] = refl
  trim_lem (x ∷ xs) = elim (Bool-cases (ltb max_points (length (x ∷ xs)))) [
    | inl e ↦
        let p : length (x ∷ xs) - max_points ≡ suc (length xs - max_points) = ground arith in
        rw (e, p) (trim_lem xs)
    | inr e ↦ rw e (sym (last_of-short max_points (x ∷ xs) (ground arith)))
  ]

  -- `append_sample` for each value in order.
  unfoldable pub append_all : List W → TelemetryChart W → TelemetryChart W
  append_all [] c = c
  append_all (x ∷ xs) c = append_all xs (append_sample x c)

  -- A chart whose points are those of its buffer.
  abbrev IsDrawn : TelemetryChart W → Type 0
  IsDrawn c = c.series ≡ points_from 0 c.buffer

  append_all-buffer :
      (xs : List W) (c : TelemetryChart W)
      → (append_all xs c).buffer ≡ push_all max_points xs c.buffer
  unfolding append_all append_sample push_all
  append_all-buffer [] c = refl
  append_all-buffer (x ∷ xs) c = append_all-buffer xs (append_sample x c)

  append_all-IsDrawn : (xs : List W) (c : TelemetryChart W) → IsDrawn c → IsDrawn (append_all xs c)
  unfolding append_all append_sample
  append_all-IsDrawn [] c h = h
  append_all-IsDrawn (x ∷ xs) c h = append_all-IsDrawn xs (append_sample x c) refl

  chart_ext : (a b : TelemetryChart W) → IsDrawn a → IsDrawn b → a.buffer ≡ b.buffer → a ≡ b
  chart_ext a b p q e = ground (arith, ap (points_from 0) e)

  -- Replacing a chart's series by a list of values, whatever it held, gives the same buffer and the same
  -- points as appending these values one by one to an empty chart: the last 60 of them, numbered from 0.
  pub update_series-append_all :
      (values : List W) (c : TelemetryChart W)
      → (update_series values c ≡ append_all values empty_chart)
        × ((update_series values c).buffer ≡ last_of max_points values)
  unfolding update_series
  update_series-append_all values c =
      let kept : trim (push_values values []) ≡ last_of max_points values =
        ap trim (push_values_lem values []) ∙ trim_lem values in
      (
        chart_ext (update_series values c) (append_all values empty_chart) refl
            (append_all-IsDrawn values empty_chart refl)
            (kept
              ∙ sym (
                  append_all-buffer values empty_chart
                  ∙ push_all_lem max_points values [] (omega arith))),
        kept,
      )

pub update_series-empty_chart : {W : Type 0} → update_series {W = W} [] empty_chart ≡ empty_chart
unfolding update_series push_values trim points_from
update_series-empty_chart = refl
