-- ===== src/Pipeline/Stage/Laws.antt =====
-- worker/importPipeline.js: the chunks of `stageRows` together.
use universal_data_onboarder.Base.{◌≡◌, List, [], ◌++◌}
use universal_data_onboarder.Base.Result.{Result, ok}
use universal_data_onboarder.Store.{Store}
use universal_data_onboarder.Pipeline.Stage.{RowDraft, Documents}

-- Insertions that succeed, and put the documents behind those that are there.
pub record IsAppending (docs : Documents) : Type 0 where
  pub inserts :
      (s : Store) (ds : List RowDraft) → docs.insert_many s ds ≡ ((docs.insert_many s ds).0, ok tt)
  pub nothing : (s : Store) → (docs.insert_many s []).0 ≡ s
  pub appends :
      (s : Store) (ds es : List RowDraft)
      → (docs.insert_many (docs.insert_many s ds).0 es).0 ≡ (docs.insert_many s (ds ++ es)).0
