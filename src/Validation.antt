-- ===== src/Validation.antt =====
-- core/validation/validateRows.js: the checks of mapped rows.
pub mod Rules
pub mod Job
mod Tests
