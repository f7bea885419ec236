-- ===== src/Log/Console.antt =====
-- log/loghandler/: the console handler, which writes a line for each record.
pub mod State
pub mod Handler
pub mod Handle
pub mod Builder
pub mod Rendered
pub mod Moved
pub mod Elements
pub mod Attributes
pub mod Lines
pub mod Handled
pub mod Entries
pub mod Clones
mod Tests
