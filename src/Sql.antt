-- ===== src/Sql.antt =====
-- core/parsing/sqlDumpParser.js: rows out of an INSERT-format SQL dump.
pub mod Ident
pub mod Lexer
pub mod Scan
pub mod Progress
mod Tests
