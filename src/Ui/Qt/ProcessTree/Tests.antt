-- ===== src/Ui/Qt/ProcessTree/Tests.antt =====
-- A process and its child.
use sys_scope.Base.{
  ℕ, ◌≡◌, refl, Bool, true, false, ◌&&◌, List, [], ◌∷◌, ◌++◌, none, some, codes, to_string, arith,
  ltb, ℤ, pos, negsuc, Micro, micro_double, micro_print,
}
use sys_scope.Core.Snapshot.{ProcessInfo}
use sys_scope.Ui.Qt.Labels.{Strings}
use sys_scope.Ui.Qt.ProcessTree.{
  child, Variant, new_tree, row_count, index, parent, data_at, update_processes,
}
use sys_scope.Ui.Qt.ProcessTree.Flat.{update_processes-rows}

abbrev appending : Strings Micro
appending = record {
  arg = λ s t. s ++ t;
  arg_int = λ s n. s ++ to_string n;
  arg_double = λ s x. s ++ micro_print 2 x;
}

abbrev within : ℤ → ℤ → ℤ → ℤ → Bool
within (pos rows) (pos columns) (pos row) (pos column) = ltb row rows && ltb column columns
within (pos rows) (pos columns) (pos row) (negsuc column) = false
within (pos rows) (pos columns) (negsuc row) column = false
within (pos rows) (negsuc columns) row column = false
within (negsuc rows) columns row column = false

abbrev process : ℕ → ℕ → ProcessInfo Micro
process pid ppid = record {
  pid = pos pid;
  ppid = pos ppid;
  name = codes "sh";
  cmdline = [];
  state = b'S';
  cpu_percent = 0;
  rss_bytes = 0;
  vms_bytes = 0;
  threads = 1;
  utime = 0;
  stime = 0;
  start_time = 0;
}

abbrev family : List (ProcessInfo Micro)
family = process 1 0 ∷ process 7 1 ∷ []

update_processes-rows_example :
    let t = update_processes family (new_tree {W = Micro}) in
    let i = index within t (pos 1) (pos 2) none in
    (row_count t none ≡ pos 2)
    × (i ≡ some (record { row = pos 1; column = pos 2; pointer = child 1 }))
    × (data_at appending t (index within t (pos 1) (pos 0) none) true ≡ Variant.number (pos 7))
    × (row_count t i ≡ pos 0)
    × (parent t i ≡ none)
update_processes-rows_example =
    update_processes-rows Micro appending within family new_tree 1 2 (process 7 1)
      (λ rows columns row column. refl) refl (omega arith)
