-- ===== src/Ex.antt =====
-- The errors package, ex/: its values, and Errors, which joins several into one.
pub mod Error
pub mod Multi
