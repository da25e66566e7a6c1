-- ===== src/App.antt =====
-- rust/src/app: the state behind the window.
pub mod QueryState
pub mod TabState
pub mod History
pub mod Tabs
pub mod Window
pub mod WorkerChannel
pub mod IgnoreMatcher
