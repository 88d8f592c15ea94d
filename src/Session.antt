-- ===== src/Session.antt =====
-- orchestration/dependencyGraph.js, orchestration/sessionManager.js, and the part of
-- worker/importPipeline.js that runs a session: migration sessions, which import several files in
-- the order of their dependencies.
pub mod Graph
pub mod Order
pub mod Db
pub mod Manager
pub mod References
pub mod ExternalIds
pub mod Run
mod Tests
