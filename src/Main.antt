-- ===== src/Main.antt =====
-- src/sysbench.c: main, and run_test with the threads that it starts.
pub mod Phases
pub mod Status
pub mod Barriers
pub mod Meetings
pub mod Dispatch
pub mod Order
pub mod Orderly
pub mod RunCommand
mod Tests
