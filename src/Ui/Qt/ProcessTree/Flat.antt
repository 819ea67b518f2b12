-- ===== src/Ui/Qt/ProcessTree/Flat.antt =====
-- What the view sees after an update: one row for each process, and nothing below a row.
use mathlib.Core.List.{append_assoc, append-nil}
use sys_scope.Base.{
  ℕ, zero, suc, ◌+◌, ◌<◌, ◌≡◌, refl, sym, ap, ◌∙◌, Bool, true, ◌&&◌, List, [], ◌∷◌, ◌++◌, Option,
  none, some, map, arith, length, length-append, get_elem?, ltb, lt→ltb, ℤ, pos, int_eq, Double,
}
use sys_scope.Core.Snapshot.{ProcessInfo}
use sys_scope.Ui.Qt.Labels.{Strings}
use sys_scope.Ui.Qt.ProcessTree.{
  NodeRef, child, ProcessTreeModel, ModelIndex, Variant, column_of, is_positive, node_at, node_of,
  row_count, index_at, child_at, index, parent_index, parent, column_data, data_at, node_for,
  add_processes, update_processes,
}

refs_from : ℕ → ℕ → List NodeRef
refs_from i zero = []
refs_from i (suc n) = child i ∷ refs_from (i + 1) n

get_elem?-refs_from : (i n k : ℕ) → k < n → get_elem? (refs_from i n) k ≡ some (child (i + k))
unfolding refs_from
get_elem?-refs_from i zero k h = absurd (omega arith)
get_elem?-refs_from i (suc n) zero h = let e : i + 0 ≡ i = omega arith in rw e refl
get_elem?-refs_from i (suc n) (suc k) h =
    let e : i + suc k ≡ i + 1 + k = omega arith in
    rw e (get_elem?-refs_from (i + 1) n k (omega arith))

length-refs_from : (i n : ℕ) → length (refs_from i n) ≡ n
unfolding refs_from
length-refs_from i zero = refl
length-refs_from i (suc n) = ap suc (length-refs_from (i + 1) n)

get_elem?-map :
    {A B : Type 0} (f : A → B) (xs : List A) (i : ℕ) {x : A}
    → get_elem? xs i ≡ some x
    → get_elem? (map f xs) i ≡ some (f x)
get_elem?-map f [] i h = cc
get_elem?-map f (x ∷ xs) zero h = ground arith
get_elem?-map f (x ∷ xs) (suc i) h = get_elem?-map f xs i h

get_elem?-lt : {A : Type 0} (xs : List A) (i : ℕ) {x : A} → get_elem? xs i ≡ some x → i < length xs
get_elem?-lt [] i h = cc
get_elem?-lt (x ∷ xs) zero h = omega arith
get_elem?-lt (x ∷ xs) (suc i) h = omega (arith, get_elem?-lt xs i h)

-- What Qt documents of hasIndex, for numbers that are not negative.
abbrev pub InRange : (ℤ → ℤ → ℤ → ℤ → Bool) → Type 0
InRange has_index =
    (rows columns row column : ℕ)
    → has_index (pos rows) (pos columns) (pos row) (pos column)
      ≡ (ltb row rows && ltb column columns)

module _ {W : Type 0} ⦃d : Double W⦄ where
  -- The nodes of the processes, and the root's pointers to them in order.
  record IsFlat (ps : List (ProcessInfo W)) (t : ProcessTreeModel W) : Type 0 where
    nodes : t.heap ≡ map node_for ps
    pointers : t.root_node.children ≡ refs_from 0 (length ps)

  add_processes_lem :
      (ps : List (ProcessInfo W)) (t : ProcessTreeModel W)
      → ((add_processes ps t).heap ≡ t.heap ++ map node_for ps)
        × ((add_processes ps t).root_node.children
            ≡ t.root_node.children ++ refs_from (length t.heap) (length ps))
  unfolding add_processes refs_from
  add_processes_lem [] t = (sym (append-nil t.heap), sym (append-nil t.root_node.children))
  add_processes_lem (p ∷ ps) t =
      let node = child (length t.heap) in
      let size : length (t.heap ++ (node_for p ∷ [])) ≡ length t.heap + 1 =
        length-append t.heap (node_for p ∷ []) in
      let (a, b) = add_processes_lem ps _ in
      (
        a ∙ append_assoc t.heap (node_for p ∷ []) (map node_for ps),
        b
            ∙ append_assoc t.root_node.children (node ∷ []) _
            ∙ ap (λ (k : ℕ). t.root_node.children ++ (node ∷ refs_from k (length ps))) size,
      )

  update_processes-IsFlat :
      (ps : List (ProcessInfo W)) (t : ProcessTreeModel W) → IsFlat ps (update_processes ps t)
  unfolding update_processes
  update_processes-IsFlat ps t =
      let (a, b) = add_processes_lem ps _ in record { nodes = a; pointers = b }

  node_at-flat :
      (ps : List (ProcessInfo W)) (t : ProcessTreeModel W) (row : ℕ) (p : ProcessInfo W)
      → IsFlat ps t
      → get_elem? ps row ≡ some p
      → node_at t (child row) ≡ node_for p
  unfolding node_at
  node_at-flat ps t row p v h = rw (v.nodes, get_elem?-map node_for ps row h) refl

  row_count_root :
      (ps : List (ProcessInfo W)) (t : ProcessTreeModel W)
      → IsFlat ps t
      → row_count t none ≡ pos (length ps)
  unfolding row_count column_of is_positive node_of
  row_count_root ps t v = ap pos (ap length v.pointers ∙ length-refs_from 0 (length ps))

  index-flat :
      (has_index : ℤ → ℤ → ℤ → ℤ → Bool) (ps : List (ProcessInfo W)) (t : ProcessTreeModel W)
      (row column : ℕ)
      → InRange has_index
      → IsFlat ps t
      → row < length ps
      → column < 6
      → index has_index t (pos row) (pos column) none
        ≡ some (record { row = pos row; column = pos column; pointer = child row })
  unfolding index child_at index_at node_of
  index-flat has_index ps t row column q v h k =
      let shift : 0 + row ≡ row = omega arith in
      rw
        (
          row_count_root ps t v,
          q (length ps) 6 row column,
          lt→ltb row (length ps) h,
          lt→ltb column 6 k,
          v.pointers,
          get_elem?-refs_from 0 (length ps) row h,
          shift,
        )
        refl

  -- A node of a process has no rows and, as the root is its parent, an invalid parent.
  leaf :
      (ps : List (ProcessInfo W)) (t : ProcessTreeModel W) (row column : ℕ) (p : ProcessInfo W)
      → IsFlat ps t
      → get_elem? ps row ≡ some p
      → let i : Option ModelIndex =
          some (record { row = pos row; column = pos column; pointer = child row }) in
        (row_count t i ≡ pos 0) × (parent t i ≡ none)
  unfolding row_count node_of parent parent_index node_for
  leaf ps t row column p v h = rw (node_at-flat ps t row p v h) (ground arith, refl)

  pid_shown :
      (strings : Strings W) (ps : List (ProcessInfo W)) (t : ProcessTreeModel W) (row : ℕ)
      (p : ProcessInfo W)
      → IsFlat ps t
      → get_elem? ps row ≡ some p
      → let i : Option ModelIndex =
          some (record { row = pos row; column = pos 0; pointer = child row }) in
        data_at strings t i true ≡ Variant.number p.pid
  unfolding data_at column_data node_for int_eq
  pid_shown strings ps t row p v h = rw (node_at-flat ps t row p v h) refl

-- After an update, whatever the model held, the root has a row for each process, in the order of the
-- list; the index of a process's row, in each of the six columns, points at its node, whose pid is what
-- the first column shows; and that index has no rows below it and no valid parent, whatever the ppid
-- of the process: the tree is flat. hasIndex is assumed to say whether row and column are in range.
pub update_processes-rows :
    (W : Type 0) ⦃d : Double W⦄ (strings : Strings W) (has_index : ℤ → ℤ → ℤ → ℤ → Bool)
    (ps : List (ProcessInfo W)) (t : ProcessTreeModel W) (row column : ℕ) (p : ProcessInfo W)
    → InRange has_index
    → get_elem? ps row ≡ some p
    → column < 6
    → let t' = update_processes ps t in
      let i = index has_index t' (pos row) (pos column) none in
      (row_count t' none ≡ pos (length ps))
      × (i ≡ some (record { row = pos row; column = pos column; pointer = child row }))
      × (data_at strings t' (index has_index t' (pos row) (pos 0) none) true ≡ Variant.number p.pid)
      × (row_count t' i ≡ pos 0)
      × (parent t' i ≡ none)
update_processes-rows W strings has_index ps t row column p q h k =
    let t' = update_processes ps t in
    let v = update_processes-IsFlat ps t in
    let inside = get_elem?-lt ps row h in
    let at = index-flat has_index ps t' row column q v inside k in
    let first = index-flat has_index ps t' row 0 q v inside (omega arith) in
    let below = leaf ps t' row column p v h in
    (
      row_count_root ps t' v,
      at,
      rw first (pid_shown strings ps t' row p v h),
      rw at below.0,
      rw at below.1,
    )
