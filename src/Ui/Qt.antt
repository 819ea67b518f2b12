-- ===== src/Ui/Qt.antt =====
-- src/ui/qt: the models, controllers and pages of the Qt client. Qt is outside the program: a label is
-- the text that is set, a slot a function from state to state, and QString::arg a parameter.
pub mod Labels
pub mod Events
pub mod Telemetry
pub mod Chart
pub mod Playback
pub mod History
pub mod Incidents
pub mod ProcessTree
pub mod ProcessPage
pub mod Pages
pub mod Window
