-- ===== src/Log.antt =====
-- log/: the logger with options, the level names, metadata keys, and in Console the handler of
-- log/loghandler/. In Feature a handler is a list of what was done to it; attributes, groups and other
-- loggers are parameters there.
pub mod Attrs
pub mod Feature
pub mod Order
pub mod Levels
pub mod Calls
pub mod Loggers
pub mod Metadata
pub mod Console
mod Tests
