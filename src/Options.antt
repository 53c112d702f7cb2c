-- ===== src/Options.antt =====
-- src/sb_options.c: the list of options, their values and the configuration files.
pub mod Name
pub mod Table
pub mod Size
pub mod Config
pub mod Set
mod Tests
