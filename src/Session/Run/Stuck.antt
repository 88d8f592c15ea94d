-- ===== src/Session/Run/Stuck.antt =====
-- worker/importPipeline.js: the order of the status change and of `computeSessionOrder` in
-- `runSessionPipeline`.
use universal_data_onboarder.Base.{◌≡◌, refl, true, some, Text, ◌===◌}
use universal_data_onboarder.Base.Result.{err}
use universal_data_onboarder.Registry.{Registry}
use universal_data_onboarder.Session.Db.{processing, Session, SessionDb, IsSessionDb}
use universal_data_onboarder.Session.Manager.{not_pending, is_pending}
use universal_data_onboarder.Session.Manager.Laws.{saved-found}
use universal_data_onboarder.Session.Manager.Order.{compute_session_order_busy}
use universal_data_onboarder.Session.Run.{
  order_error, Runner, run_session_pipeline, run_from, after_order,
}

module _ {S : Type 0} (db : SessionDb S) (laws : IsSessionDb db) (s : S)
    (tenant_id session_id : Text) (x : Session) (found : db.find_session s session_id ≡ some x)
    (own : (x.tenant_id === tenant_id) ≡ true) where
  marked : Session
  marked = record x { status = processing }

  tenant-marked :
      db.find_tenant_session (db.save_session s marked) tenant_id session_id ≡ some marked
  unfolding marked
  tenant-marked =
      rw
        (
          laws.find_of_tenant (db.save_session s marked) tenant_id session_id,
          saved-found db laws s marked session_id (laws.found_id s session_id x found),
          own,
        )
        refl

  -- A run of a pending session of the tenant throws the error that the session is processing,
  -- before any job is run, and leaves the session so.
  pub run_session_pipeline_stuck :
      (runner : Runner S) (registry : Registry)
      → is_pending x.status ≡ true
      → run_session_pipeline db runner tenant_id session_id registry s ≡ (
        db.save_session s (record x { status = processing }),
        err (order_error (not_pending processing)),
      )
  unfolding run_session_pipeline run_from after_order marked
  run_session_pipeline_stuck runner registry idle =
      rw
        (
          found,
          idle,
          compute_session_order_busy db registry (db.save_session s marked) tenant_id session_id
              marked tenant-marked refl,
        )
        refl
