-- ===== src/Collectors/Process/Tree.antt =====
-- `ProcessCollector::build_process_tree`, and what it builds.
pub mod Family
use sys_scope.Base.{
  ℕ, ◌≡◌, refl, ◌≢◌, Bool, true, false, not, ◌&&◌, List, [], ◌∷◌, ◌++◌, map, Option, none, some,
  arith, Dict, lookup, insert, lookup-insert, int_key, int_eq, int_eq_iff, ℤ, pos, keep,
  if◌then◌else◌,
}
use sys_scope.Core.Snapshot.{ProcessSnapshot, ProcessInfo}

pub record ProcessNode (W : Type 0) : Type 0 where
  pub info : ProcessInfo W
  pub children_pids : List ℤ

abbrev pub Tree : Type 0 → Type 0
Tree W = Dict ℤ (ProcessNode W)

module _ {W : Type 0} where
  -- `tree[pid].info = proc`: a node that is there keeps its children.
  pub children_of : Option (ProcessNode W) → List ℤ
  children_of none = []
  children_of (some n) = n.children_pids

  pub add_nodes : List (ProcessInfo W) → Tree W → Tree W
  unfolding children_of
  add_nodes [] t = t
  add_nodes (p ∷ ps) t =
      add_nodes ps
        (insert p.pid (record { info = p; children_pids = children_of (lookup p.pid t) }) t)

  pub link : ProcessInfo W → Option (ProcessNode W) → Tree W → Tree W
  link p none t = t
  link p (some n) t =
      if int_eq p.ppid (pos 0)
      then t
      else insert p.ppid (record n { children_pids = n.children_pids ++ (p.pid ∷ []) }) t

  pub add_children : List (ProcessInfo W) → Tree W → Tree W
  unfolding link
  add_children [] t = t
  add_children (p ∷ ps) t = add_children ps (link p (lookup p.ppid t) t)

  pub build_process_tree : ProcessSnapshot W → Tree W
  build_process_tree s = add_children s.process_list (add_nodes s.process_list [])
