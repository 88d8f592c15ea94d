-- ===== src/Session/Run/Marks.antt =====
-- worker/importPipeline.js: what marks on the entry of one job leave of the entries.
use universal_data_onboarder.Base.{
  ◌≡◌, ◌∙◌, true, false, List, Option, none, some, Text, ◌===◌, arith,
}
use universal_data_onboarder.Base.Distinct.{IsDistinct}
use universal_data_onboarder.Store.{JobStatus}
use universal_data_onboarder.Session.Db.{EntryStatus, processing, JobEntry}
use universal_data_onboarder.Session.Run.{mark_entry, entry_status}
use universal_data_onboarder.Session.Run.Laws.{
  ids_of, is_settled, settled_at, mark_entry-ids, mark_entry-other, mark_entry-settled,
}

-- A change of entries that settles those of `id` and leaves the others.
pub record IsStep (id : Text) (es es' : List JobEntry) : Type 0 where
  pub same_ids : ids_of es' ≡ ids_of es
  pub others : (v : Text) → (id === v) ≡ false → settled_at es' v ≡ settled_at es v
  pub settles : settled_at es' id ≡ true

pub mark-IsStep :
    (id : Text) (status : EntryStatus) (error : Option Text) (es : List JobEntry)
    → IsDistinct (ids_of es)
    → is_settled status ≡ true
    → IsStep id es (mark_entry id status error es)
mark-IsStep id status error es d h = record {
  same_ids = mark_entry-ids id status error es;
  others = mark_entry-other id status error es;
  settles = mark_entry-settled id status error es d h;
}

-- The same behind a mark as `processing`.
pub marked-IsStep :
    (id : Text) (status : EntryStatus) (error : Option Text) (es : List JobEntry)
    → IsDistinct (ids_of es)
    → is_settled status ≡ true
    → IsStep id es (mark_entry id status error (mark_entry id processing none es))
marked-IsStep id status error es d h =
    let es1 = mark_entry id processing none es in
    let kept = mark_entry-ids id processing none es in
    let step = mark-IsStep id status error es1 (rw kept d) h in
    record {
      same_ids = step.same_ids ∙ kept;
      others = λ v apart. step.others v apart ∙ mark_entry-other id processing none es v apart;
      settles = step.settles;
    }

pub entry_status-settled :
    (status : JobStatus) (e : EntryStatus) → entry_status status ≡ some e → is_settled e ≡ true
unfolding entry_status
entry_status-settled status e h = ground arith
