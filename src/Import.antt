-- ===== src/Import.antt =====
-- orchestration/migrationImport.service.js: from an upload to staged rows.
pub mod Shared
pub mod Dedicated
pub mod Listing
pub mod Begin
pub mod Tests
