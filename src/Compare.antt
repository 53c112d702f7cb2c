-- ===== src/Compare.antt =====
-- src/drivers/compare/drv_compare.c: the driver that sends every statement to several servers and
-- compares what they answer.
pub mod Placeholders
pub mod Table
pub mod Errors
pub mod Query
pub mod Connect
pub mod Statement
pub mod Execute
