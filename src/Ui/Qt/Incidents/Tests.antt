-- ===== src/Ui/Qt/Incidents/Tests.antt =====
-- A page that sees a hot machine, with its first row selected.
use sys_scope.Base.{refl, [], ◌∷◌, ◌++◌, to_string, pos, Micro, micro_double, micro_print}
use sys_scope.Samples.{overheated}
use sys_scope.Ui.Qt.Labels.{Strings}
use sys_scope.Ui.Qt.Incidents.{new_page}
use sys_scope.Ui.Qt.Incidents.Listed.{updates, selects, run, IsListed, run-IsListed}

abbrev appending : Strings Micro
appending = record {
  arg = λ s t. s ++ t;
  arg_int = λ s n. s ++ to_string n;
  arg_double = λ s x. s ++ micro_print 2 x;
}

run-IsListed_example :
    IsListed appending (run appending (updates overheated ∷ selects (pos 0) ∷ []) new_page)
run-IsListed_example =
    run-IsListed appending (updates overheated ∷ selects (pos 0) ∷ []) new_page
      (record { items = refl; active = refl })
