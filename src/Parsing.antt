-- ===== src/Parsing.antt =====
-- core/parsing/streamingParser.js: the bounded parse of a file of any format.
pub mod Formats
pub mod Collect
pub mod JsonRoot
pub mod Excel
pub mod Dispatch
mod Tests
