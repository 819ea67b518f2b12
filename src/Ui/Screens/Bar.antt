-- ===== src/Ui/Screens/Bar.antt =====
-- The cells of a progress bar.
use sys_scope.Base.{
  ℕ, zero, suc, ◌+◌, ◌-◌, ◌≡◌, refl, ap, ◌∙◌, inl, inr, [], ◌∷◌, ◌++◌, arith, Text, ltb, Bool-cases,
  replicate, ℤ, pos_part, if◌then◌else◌, Double, clamp,
}
use sys_scope.Ui.Screens.{bar_cells, below_int, make_progress_bar}

abbrev pub full_cell : ℕ
full_cell = 9608

abbrev pub empty_cell : ℕ
empty_cell = 9617

-- At most `n`.
abbrev pub at_most : ℕ → ℕ → ℕ
at_most n k = if ltb n k then n else k

bar_cells_lem :
    (n i : ℕ) (z : ℤ)
    → bar_cells n i z
      ≡ replicate (at_most n (pos_part z - i)) full_cell
        ++ replicate (n - at_most n (pos_part z - i)) empty_cell
unfolding bar_cells replicate
bar_cells_lem zero i z = ground arith
bar_cells_lem (suc n) i z = elim (Bool-cases (below_int i z)) [
  | inl e ↦
      let p : at_most (suc n) (pos_part z - i) ≡ suc (at_most n (pos_part z - (i + 1))) =
        ground arith in
      let q : suc n - suc (at_most n (pos_part z - (i + 1)))
          ≡ n - at_most n (pos_part z - (i + 1)) =
        omega arith in
      rw (e, p, q) (ap (◌∷◌ full_cell) (bar_cells_lem n (i + 1) z))
  | inr e ↦
      let p : at_most (suc n) (pos_part z - i) ≡ 0 = ground arith in
      let q : at_most n (pos_part z - (i + 1)) ≡ 0 = ground arith in
      let r : suc n - 0 ≡ suc n = omega arith in
      let t : n - 0 ≡ n = omega arith in
      let rest : bar_cells n (i + 1) z ≡ replicate n empty_cell =
        bar_cells_lem n (i + 1) z ∙ rw (q, t) refl in
      rw (e, p, r) (ap (◌∷◌ empty_cell) rest)
]

-- A progress bar has exactly as many cells as its width, between brackets, whatever the value, also
-- for one that is not a number: first full cells, as many as the clamped value's share of the width,
-- rounded towards 0, and then empty ones.
pub make_progress_bar_lem :
    (W : Type 0) ⦃d : Double W⦄ (percent : W) (width : ℕ)
    → let share =
        d.mul (d.div (clamp percent (d.lit 0 0) (d.lit 100 0)) (d.lit 100 0)) (d.of_u64 width) in
      let full = at_most width (pos_part (d.trunc share)) in
      (make_progress_bar percent width
        ≡ b'[' ∷ ((replicate full full_cell ++ replicate (width - full) empty_cell) ++ (b']' ∷ [])))
      × (full + (width - full) ≡ width)
unfolding make_progress_bar
make_progress_bar_lem W ⦃d⦄ percent width =
    let z =
      d.trunc
        (d.mul (d.div (clamp percent (d.lit 0 0) (d.lit 100 0)) (d.lit 100 0)) (d.of_u64 width)) in
    let all : pos_part z - 0 ≡ pos_part z = omega arith in
    let cells = bar_cells_lem width 0 z in
    (ap (λ (s : Text). b'[' ∷ (s ++ (b']' ∷ []))) (rw all at cells), ground arith)
