-- ===== src/Ui/Qt/ProcessTree.antt =====
-- ui/qt/process_tree_model.cpp, built with Qt: the nodes below the root and the QAbstractItemModel
-- interface. A pointer to a node is a `NodeRef`; QAbstractItemModel::hasIndex is Qt's, a function of the
-- rows and columns of the parent and of the row and column asked for.
pub mod Flat
mod Tests
use sys_scope.Base.{
  ℕ, zero, suc, ◌+◌, Bool, true, false, not, List, [], ◌∷◌, ◌++◌, Option, none, some, Text, codes,
  length, get_elem?, ltb, ◌==◌, ℤ, pos, negsuc, int_eq, int_key, Dict, insert, if◌then◌else◌,
  Double,
}
use sys_scope.Core.Snapshot.{ProcessInfo, zero_double}
use sys_scope.Util.{format_metric, format_bytes}
use sys_scope.Ui.Qt.Labels.{Strings}

pub data NodeRef : Type 0 where
  root : NodeRef
  child : ℕ → NodeRef

pub record ProcessNode (W : Type 0) : Type 0 where
  pub pid : ℤ
  pub ppid : ℤ
  pub name : Text
  pub cpu_percent : W
  pub rss_bytes : ℕ
  pub state : ℕ
  pub num_threads : ℕ
  pub parent : Option NodeRef
  pub children : List NodeRef

-- `heap` are the nodes other than the root, `child i` the one at place `i`.
pub record ProcessTreeModel (W : Type 0) : Type 0 where
  pub root_node : ProcessNode W
  pub heap : List (ProcessNode W)
  pub node_map : Dict ℤ NodeRef

-- A valid QModelIndex; an invalid one is `none`, with row and column -1.
pub record ModelIndex : Type 0 where
  pub row : ℤ
  pub column : ℤ
  pub pointer : NodeRef

-- A QVariant that holds nothing, an int or a text.
pub data Variant : Type 0 where
  empty : Variant
  number : ℤ → Variant
  text : Text → Variant

pub column_of : Option ModelIndex → ℤ
column_of none = negsuc 0
column_of (some i) = i.column

-- `x > 0`
pub is_positive : ℤ → Bool
is_positive (pos n) = ltb 0 n
is_positive (negsuc n) = false

-- `columnCount`
abbrev pub column_count : ℤ
column_count = pos 6

index_at : ℤ → ℤ → Option NodeRef → Option ModelIndex
index_at row column none = none
index_at row column (some r) = some (record { row = row; column = column; pointer = r })

-- `row >= 0 && row < size`, and the child at that place.
pub child_at : List NodeRef → ℤ → Option NodeRef
child_at children (negsuc n) = none
child_at children (pos row) = get_elem? children row

same_node : NodeRef → NodeRef → Bool
same_node root root = true
same_node root (child j) = false
same_node (child i) root = false
same_node (child i) (child j) = i == j

-- The place of the node among the children, 0 if it is not among them.
row_among : NodeRef → List NodeRef → ℕ → ℕ
unfolding same_node
row_among r [] i = 0
row_among r (c ∷ cs) i = let rest = row_among r cs (i + 1) in if same_node c r then i else rest

module _ {W : Type 0} ⦃d : Double W⦄ where
  -- `ProcessNode{}`, with its members' initialisers.
  abbrev pub blank_node : ProcessNode W
  blank_node = record {
    pid = pos 0;
    ppid = pos 0;
    name = [];
    cpu_percent = zero_double;
    rss_bytes = 0;
    state = b'R';
    num_threads = 1;
    parent = none;
    children = [];
  }

  -- `ProcessTreeModel(parent)`
  abbrev pub new_tree : ProcessTreeModel W
  new_tree = record {
    root_node = record blank_node { name = codes "system_root" };
    heap = [];
    node_map = [];
  }

  abbrev pub or_blank : Option (ProcessNode W) → ProcessNode W
  or_blank none = blank_node
  or_blank (some n) = n

  -- What a pointer points at; one that dangles is not followed.
  pub node_at : ProcessTreeModel W → NodeRef → ProcessNode W
  node_at t root = t.root_node
  node_at t (child i) = or_blank (get_elem? t.heap i)

  -- The root for an invalid index.
  pub node_of : ProcessTreeModel W → Option ModelIndex → ProcessNode W
  unfolding node_at
  node_of t none = t.root_node
  node_of t (some i) = node_at t i.pointer

  pub row_count : ProcessTreeModel W → Option ModelIndex → ℤ
  unfolding node_of column_of is_positive
  row_count t parent =
      if is_positive (column_of parent) then pos 0 else pos (length (node_of t parent).children)

  pub index :
      (ℤ → ℤ → ℤ → ℤ → Bool) → ProcessTreeModel W → ℤ → ℤ → Option ModelIndex → Option ModelIndex
  unfolding row_count child_at index_at
  index has_index t row column parent =
      if has_index (row_count t parent) column_count row column
      then index_at row column (child_at (node_of t parent).children row)
      else none

  parent_below : ProcessTreeModel W → NodeRef → Option NodeRef → Option ModelIndex
  unfolding row_among
  parent_below t parent_node none = none
  parent_below t parent_node (some grand_parent) = some (record {
    row = pos (row_among parent_node (node_at t grand_parent).children 0);
    column = pos 0;
    pointer = parent_node;
  })

  pub parent_index : ProcessTreeModel W → Option NodeRef → Option ModelIndex
  unfolding parent_below
  parent_index t none = none
  parent_index t (some root) = none
  parent_index t (some (child i)) = parent_below t (child i) (node_at t (child i)).parent

  pub parent : ProcessTreeModel W → Option ModelIndex → Option ModelIndex
  unfolding parent_index
  parent t none = none
  parent t (some i) = parent_index t (node_at t i.pointer).parent

  pub column_data : Strings W → ProcessNode W → ℤ → Variant
  column_data strings n column =
      if int_eq column (pos 0)
      then Variant.number n.pid
      else if int_eq column (pos 1)
      then Variant.number n.ppid
      else if int_eq column (pos 2)
      then Variant.text n.name
      else if int_eq column (pos 3)
      then Variant.text (strings.arg (codes "%1%") (format_metric n.cpu_percent 2))
      else if int_eq column (pos 4)
      then Variant.text (format_bytes W n.rss_bytes)
      else if int_eq column (pos 5)
      then Variant.text (n.state ∷ [])
      else Variant.empty

  -- `is_display` is `role == Qt::DisplayRole`.
  pub data_at : Strings W → ProcessTreeModel W → Option ModelIndex → Bool → Variant
  unfolding column_data
  data_at strings t none is_display = Variant.empty
  data_at strings t (some i) is_display =
      if is_display then column_data strings (node_at t i.pointer) i.column else Variant.empty

  -- A node of the process, with the root as its parent whatever its ppid.
  pub node_for : ProcessInfo W → ProcessNode W
  node_for proc = record {
    pid = proc.pid;
    ppid = proc.ppid;
    name = proc.name;
    cpu_percent = proc.cpu_percent;
    rss_bytes = proc.rss_bytes;
    state = proc.state;
    num_threads = proc.threads;
    parent = some root;
    children = [];
  }

  pub add_processes : List (ProcessInfo W) → ProcessTreeModel W → ProcessTreeModel W
  unfolding node_for
  add_processes [] t = t
  add_processes (proc ∷ ps) t =
      let node = child (length t.heap) in
      add_processes ps (record {
        root_node = record t.root_node { children = t.root_node.children ++ (node ∷ []) };
        heap = t.heap ++ (node_for proc ∷ []);
        node_map = insert proc.pid node t.node_map;
      })

  pub update_processes : List (ProcessInfo W) → ProcessTreeModel W → ProcessTreeModel W
  unfolding add_processes
  update_processes processes t =
      add_processes processes
        (record { root_node = record t.root_node { children = [] }; heap = []; node_map = [] })

-- `headerData` of a horizontal header in the role Qt::DisplayRole; `shown` says that it is one.
header_data : ℤ → Bool → Variant
header_data section shown =
    if not shown
    then Variant.empty
    else if int_eq section (pos 0)
    then Variant.text (codes "PID")
    else if int_eq section (pos 1)
    then Variant.text (codes "PPID")
    else if int_eq section (pos 2)
    then Variant.text (codes "Process Name")
    else if int_eq section (pos 3)
    then Variant.text (codes "CPU %")
    else if int_eq section (pos 4)
    then Variant.text (codes "RSS Memory")
    else if int_eq section (pos 5)
    then Variant.text (codes "State")
    else Variant.empty
