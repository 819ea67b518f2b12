-- ===== src/Ui/Qt/Labels.antt =====
-- The overloads of QString::arg that the client calls, which are Qt's.
use sys_scope.Base.{ℕ, Text}

-- `QString(s).arg(x)` for a text, an integer and a double.
pub record Strings (W : Type 0) : Type 0 where
  pub arg : Text → Text → Text
  pub arg_int : Text → ℕ → Text
  pub arg_double : Text → W → Text
