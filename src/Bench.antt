-- ===== src/Bench.antt =====
-- src/tests: the built-in tests that need no file and no database.
pub mod Cpu
pub mod Memory
pub mod Mutex
pub mod Threads
