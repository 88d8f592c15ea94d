-- ===== src/Pipeline.antt =====
-- worker/importPipeline.js: the steps of one job, from the file in the bucket to the commit.
pub mod Stage
pub mod Steps
pub mod Sessions
