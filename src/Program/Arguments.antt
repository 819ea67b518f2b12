-- ===== src/Program/Arguments.antt =====
-- Which arguments start what.
use sys_scope.Base.{
  ℕ, ◌≡◌, ◌↔◌, Bool, true, false, not, ◌||◌, ◌&&◌, List, [], ◌∷◌, arith, Text, codes, text_eq,
  Double,
}
use sys_scope.Platform.Host.{is_linux_platform}
use sys_scope.Analytics.Profiler.{ProfileReport}
use sys_scope.Ui.Screens.{Env}
use sys_scope.Program.{main, with_command, plain_start, dashboard}

-- The arguments ask for the benchmark, or for a profile of a command.
abbrev asks : List Text → Bool
asks [] = false
asks (program ∷ []) = false
asks (program ∷ command ∷ []) = text_eq command (codes "monitor")
asks (program ∷ command ∷ w ∷ ws) =
    text_eq command (codes "monitor") || text_eq command (codes "profile")

-- The dashboard is started exactly on Linux and when the arguments ask neither for the benchmark nor for
-- a profile of a command; `profile` without a command asks for nothing.
pub main-dashboard :
    (W : Type 0) ⦃d : Double W⦄ (env : Env W) (now : ℕ) (profile_command : Text → ProfileReport W)
    (args : List Text)
    → (main env now profile_command args ≡ dashboard)
      ↔ ((is_linux_platform env.host && not (asks args)) ≡ true)
unfolding main with_command plain_start
main-dashboard W env now profile [] = ground arith
main-dashboard W env now profile (p ∷ []) = ground arith
main-dashboard W env now profile (p ∷ c ∷ []) = ground arith
main-dashboard W env now profile (p ∷ c ∷ w ∷ ws) = ground arith
