-- ===== src/Ui/Screens/Processes.antt =====
-- ui/dashboard.cpp: the screen Processes.
use sys_scope.Base.{List, [], ◌∷◌, ◌++◌, Text, codes, take, int_to_string, pad_right, Double}
use sys_scope.Core.Snapshot.{MetricSnapshot, ProcessInfo}
use sys_scope.Util.{format_bytes}
use sys_scope.Ui.Screens.{
  Env, processes, concat, newline, reset, bold, cyan, metric, render_header, render_footer,
  first_rows,
}

module _ {W : Type 0} ⦃d : Double W⦄ where
  pub hierarchy_row : ProcessInfo W → Text
  hierarchy_row p = concat (
      pad_right 8 (int_to_string p.pid)
      ∷ pad_right 8 (int_to_string p.ppid)
      ∷ pad_right 20 (take 18 p.name)
      ∷ pad_right 10 (metric p.cpu_percent)
      ∷ pad_right 12 (format_bytes W p.rss_bytes)
      ∷ pad_right 8 (p.state ∷ [])
      ∷ newline
      ∷ [])

  pub hierarchy_rows : List (ProcessInfo W) → Text
  unfolding hierarchy_row
  hierarchy_rows [] = []
  hierarchy_rows (p ∷ ps) = hierarchy_row p ++ hierarchy_rows ps

  pub render_processes : Env W → MetricSnapshot W → Text
  unfolding hierarchy_rows
  render_processes env snapshot = concat (
      render_header env snapshot processes
      ∷ bold
      ∷ codes "PROCESS HIERARCHY LIST (Top 12 PIDs):"
      ∷ reset
      ∷ newline
      ∷ newline
      ∷ cyan
      ∷ pad_right 8 (codes "PID")
      ∷ pad_right 8 (codes "PPID")
      ∷ pad_right 20 (codes "NAME")
      ∷ pad_right 10 (codes "CPU %")
      ∷ pad_right 12 (codes "RSS MEM")
      ∷ pad_right 8 (codes "STATE")
      ∷ reset
      ∷ newline
      ∷ hierarchy_rows (first_rows 12 (env.sort snapshot.processes.process_list))
      ∷ render_footer env snapshot processes
      ∷ [])
