-- ===== src/App.antt =====
-- The application behind its user interface: src/app/state.rs and src/app/workflow.rs.
pub mod State
pub mod Trace
pub mod Workflow
pub mod Runs
pub mod Devices
pub mod Gui
