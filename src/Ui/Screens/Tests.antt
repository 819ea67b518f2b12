-- ===== src/Ui/Screens/Tests.antt =====
-- A bar at three quarters.
use sys_scope.Base.{◌≡◌, refl, codes, clamp, Micro, micro_double}
use sys_scope.Ui.Screens.{make_progress_bar}

bar_shown : make_progress_bar {W = Micro} 75_000_000 8 ≡ codes "[██████░░]"
unfolding make_progress_bar clamp
bar_shown = refl
