-- ===== src/Ui/Qt/ProcessPage.antt =====
-- ui/qt/pages/process_page.cpp: the tree of processes and the inspector of the selected one.
use sys_scope.Base.{ℕ, Bool, true, Option, none, some, Text, codes, ℤ, pos, Double}
use sys_scope.Core.Snapshot.{MetricSnapshot}
use sys_scope.Ui.Qt.Labels.{Strings}
use sys_scope.Ui.Qt.ProcessTree.{
  ProcessTreeModel, ModelIndex, Variant, index, parent, data_at, update_processes,
}

-- The labels of the inspector that a selection sets; the number of threads is never set.
pub record ProcessPage (W : Type 0) : Type 0 where
  pub tree_model : ProcessTreeModel W
  pub detail_pid : Text
  pub detail_name : Text
  pub detail_cpu : Text
  pub detail_rss : Text
  pub detail_state : Text

-- `to_text` is QVariant::toString.
module _ {W : Type 0} ⦃d : Double W⦄ (strings : Strings W) (to_text : Variant → Text)
    (has_index : ℤ → ℤ → ℤ → ℤ → Bool) where
  open strings use {arg}

  pub update_process_page : MetricSnapshot W → ProcessPage W → ProcessPage W
  update_process_page snapshot p = record p {
    tree_model = update_processes snapshot.processes.process_list p.tree_model;
  }

  -- The text of a column in the row of the index.
  cell : ProcessTreeModel W → ModelIndex → ℕ → Text
  cell t i column =
      to_text (data_at strings t (index has_index t i.row (pos column) (parent t (some i))) true)

  on_process_selected : Option ModelIndex → ProcessPage W → ProcessPage W
  unfolding cell
  on_process_selected none p = p
  on_process_selected (some i) p = record p {
    detail_pid = arg (codes "PID: %1") (cell p.tree_model i 0);
    detail_name = arg (codes "Name: %1") (cell p.tree_model i 2);
    detail_cpu = arg (codes "CPU Utilization: %1") (cell p.tree_model i 3);
    detail_rss = arg (codes "Peak RSS: %1") (cell p.tree_model i 4);
    detail_state = arg (codes "State: %1") (cell p.tree_model i 5);
  }
