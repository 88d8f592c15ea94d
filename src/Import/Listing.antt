-- ===== src/Import/Listing.antt =====
-- orchestration/migrationImport.service.js: `listStagedRows`, `listImportJobs`.
use universal_data_onboarder.Base.{List, Option, Text, ℤ}
use universal_data_onboarder.Store.{Job, JobStatus, StagedRow, ValidationStatus}
use universal_data_onboarder.Paging.{Page, page_of}

-- The documents that a filter finds, in the order that the query asks for.
pub record Finder : Type 0 where
  -- `ImportStagedRecord.find({ tenantId, importJobId, validationStatus }).sort({ rowIndex: 1 })`
  pub find_rows : Text → Text → Option ValidationStatus → List StagedRow
  -- `ImportJob.find({ tenantId, status }).sort({ createdAt: -1 })`
  pub find_jobs : Text → Option JobStatus → List Job

unfoldable pub list_staged_rows :
    Finder → Text → Text → Option ValidationStatus → Option ℤ → Option ℤ → Page StagedRow
unfolding page_of
list_staged_rows finder tenant_id job_id status page limit =
    page_of 200 (finder.find_rows tenant_id job_id status) page limit

unfoldable pub list_import_jobs : Finder → Text → Option JobStatus → Option ℤ → Option ℤ → Page Job
unfolding page_of
list_import_jobs finder tenant_id status page limit =
    page_of 100 (finder.find_jobs tenant_id status) page limit
