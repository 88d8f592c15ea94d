-- ===== src/Mapping.antt =====
-- core/mapping/applyMapping.js: source columns onto a target's fields.
pub mod Distance
pub mod Suggest
pub mod Reshape
mod Tests
