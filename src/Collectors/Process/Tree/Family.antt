-- ===== src/Collectors/Process/Tree/Family.antt =====
-- The nodes of the tree that `build_process_tree` builds.
use mathlib.Core.List.{append_assoc, append-nil}
use sys_scope.Base.{
  ◌≡◌, refl, sym, ap, ◌∙◌, inl, inr, Bool, not, ◌&&◌, List, [], ◌∷◌, ◌++◌, map, Option, none, some,
  arith, lookup, insert, lookup-insert, int_key, int_eq, int_eq_iff, ℤ, pos, keep, Bool-cases,
  if◌then◌else◌,
}
use sys_scope.Core.Snapshot.{ProcessSnapshot, ProcessInfo}
use sys_scope.Collectors.Process.Tree.{
  ProcessNode, Tree, children_of, add_nodes, link, add_children, build_process_tree,
}

module _ {W : Type 0} where
  -- Whether `p` is a child of `k`: the parent 0 is no process.
  abbrev is_child : ℤ → ProcessInfo W → Bool
  is_child k p = int_eq p.ppid k && not (int_eq p.ppid (pos 0))

  -- The pids of the processes with the parent `k`, in the order of the list.
  abbrev pub kids : ℤ → List (ProcessInfo W) → List ℤ
  kids k ps = map (λ (p : ProcessInfo W). p.pid) (keep (is_child k) ps)

  -- The last process with the pid, and `before` if there is none.
  abbrev pub last_process :
      ℤ → Option (ProcessInfo W) → List (ProcessInfo W) → Option (ProcessInfo W)
  last_process k before [] = before
  last_process k before (p ∷ ps) = last_process k (if int_eq p.pid k then some p else before) ps

  abbrev pub node_of : List ℤ → Option (ProcessInfo W) → Option (ProcessNode W)
  node_of l none = none
  node_of l (some p) = some (record { info = p; children_pids = l })

  abbrev grown : List ℤ → Option (ProcessNode W) → Option (ProcessNode W)
  grown l none = none
  grown l (some n) = some (record n { children_pids = n.children_pids ++ l })

  grown-nil : (o : Option (ProcessNode W)) → grown [] o ≡ o
  grown-nil none = refl
  grown-nil (some n) = ap (λ l. some (record n { children_pids = l })) (append-nil n.children_pids)

  grown-grown : (l m : List ℤ) (o : Option (ProcessNode W)) → grown m (grown l o) ≡ grown (l ++ m) o
  grown-grown l m none = refl
  grown-grown l m (some n) =
      ap (λ l. some (record n { children_pids = l })) (append_assoc n.children_pids l m)

  grown-node_of : (l : List ℤ) (o : Option (ProcessInfo W)) → grown l (node_of [] o) ≡ node_of l o
  grown-node_of l none = refl
  grown-node_of l (some p) = refl

  children_of-node_of : (o : Option (ProcessInfo W)) → children_of (node_of [] o) ≡ []
  unfolding children_of
  children_of-node_of none = refl
  children_of-node_of (some p) = refl

  added_node :
      (k : ℤ) (p : ProcessInfo W) (t : Tree W) (before own : Option (ProcessInfo W))
      → lookup k t ≡ node_of [] before
      → lookup p.pid t ≡ node_of [] own
      → lookup k
          (insert p.pid (record { info = p; children_pids = children_of (lookup p.pid t) }) t)
        ≡ node_of [] (if int_eq p.pid k then some p else before)
  added_node k p t before own h e =
      let children : children_of (lookup p.pid t) ≡ [] =
        ap children_of e ∙ children_of-node_of own in
      lookup-insert p.pid k _ t
      ∙ elim (Bool-cases (int_eq p.pid k)) [ inl q ↦ rw (q, children) refl | inr q ↦ rw q h ]

  -- The nodes of a tree without children
  abbrev IsBare : Tree W → (ℤ → Option (ProcessInfo W)) → Type 0
  IsBare t f = (k : ℤ) → lookup k t ≡ node_of [] (f k)

  add_nodes-lookup :
      (ps : List (ProcessInfo W)) (t : Tree W) (f : ℤ → Option (ProcessInfo W)) (k : ℤ)
      → IsBare t f
      → lookup k (add_nodes ps t) ≡ node_of [] (last_process k (f k) ps)
  unfolding add_nodes
  add_nodes-lookup [] t f k h = h k
  add_nodes-lookup (p ∷ ps) t f k h =
      add_nodes-lookup ps _ (λ j. if int_eq p.pid j then some p else f j) k
        (λ j. added_node j p t (f j) (f p.pid) (h j) (h p.pid))

  abbrev kid : ℤ → ProcessInfo W → List ℤ
  kid k p = if is_child k p then p.pid ∷ [] else []

  kids-cons :
      (k : ℤ) (p : ProcessInfo W) (ps : List (ProcessInfo W))
      → kids k (p ∷ ps) ≡ kid k p ++ kids k ps
  kids-cons k p ps = ground arith

  link-lookup :
      (k : ℤ) (p : ProcessInfo W) (o : Option (ProcessNode W)) (t : Tree W)
      → lookup p.ppid t ≡ o
      → lookup k (link p o t) ≡ grown (kid k p) (lookup k t)
  unfolding link
  link-lookup k p none t e = elim (Bool-cases (int_eq p.ppid k)) [
    | inl q ↦
        let absent : lookup k t ≡ none =
          ap (λ j. lookup j t) (sym ((int_eq_iff p.ppid k).0 q)) ∙ e in
        rw (absent) refl
    | inr q ↦ rw q (sym (grown-nil (lookup k t)))
  ]
  link-lookup k p (some n) t e = elim (Bool-cases (int_eq p.ppid (pos 0))) [
    | inl z ↦ rw z (elim (Bool-cases (int_eq p.ppid k)) [
      | inl q ↦ rw q (sym (grown-nil (lookup k t)))
      | inr q ↦ rw q (sym (grown-nil (lookup k t)))
    ])
    | inr z ↦
        rw (z, lookup-insert p.ppid k _ t)
          (elim (Bool-cases (int_eq p.ppid k)) [
            | inl q ↦
                let present : lookup k t ≡ some n =
                  ap (λ j. lookup j t) (sym ((int_eq_iff p.ppid k).0 q)) ∙ e in
                rw (q, present) refl
            | inr q ↦ rw q (sym (grown-nil (lookup k t)))
          ])
  ]

  add_children-lookup :
      (ps : List (ProcessInfo W)) (t : Tree W) (k : ℤ)
      → lookup k (add_children ps t) ≡ grown (kids k ps) (lookup k t)
  unfolding add_children
  add_children-lookup [] t k = sym (grown-nil (lookup k t))
  add_children-lookup (p ∷ ps) t k =
      add_children-lookup ps (link p (lookup p.ppid t) t) k
      ∙ ap (grown (kids k ps)) (link-lookup k p (lookup p.ppid t) t refl)
      ∙ grown-grown (kid k p) (kids k ps) (lookup k t)
      ∙ ap (λ l. grown l (lookup k t)) (sym (kids-cons k p ps))

  -- The tree has a node for exactly the pids of the list: the node holds the last process with the
  -- pid, and its children are the pids of all processes that name it as their parent, in the order
  -- of the list; a process whose parent is 0 is nobody's child.
  pub build_process_tree-lookup :
      (s : ProcessSnapshot W) (k : ℤ)
      → lookup k (build_process_tree s)
        ≡ node_of (kids k s.process_list) (last_process k none s.process_list)
  unfolding build_process_tree lookup
  build_process_tree-lookup s k =
      add_children-lookup s.process_list (add_nodes s.process_list []) k
      ∙ ap (grown (kids k s.process_list))
          (add_nodes-lookup s.process_list [] (λ j. none) k (λ j. refl))
      ∙ grown-node_of (kids k s.process_list) (last_process k none s.process_list)
