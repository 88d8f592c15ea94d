-- ===== src/Session/Order/Schedule.antt =====
-- orchestration/dependencyGraph.js: the groups of jobs in the order of their entities.
use universal_data_onboarder.Base.{
  ◌≡◌, refl, sym, ◌∙◌, ap, true, List, [], ◌∷◌, ◌++◌, some, Text, includes, ◌===◌, ===_iff, filter,
  arith, ◌⊎◌, inl, inr, Bool-cases, append_assoc, append-nil,
}
use universal_data_onboarder.Base.Dict.{Dict, get, keys}
use universal_data_onboarder.Base.Result.{ok, err}
use universal_data_onboarder.Base.Distinct.{IsDistinct, includes-append}
use universal_data_onboarder.Session.Graph.{edges, circular, build_graph}
use universal_data_onboarder.Session.Graph.Build.{requires}
use universal_data_onboarder.Session.Graph.Sort.{
  IsOrder, IsOrdered, IsOrderable, topological_sort_decides,
}
use universal_data_onboarder.Session.Order.{
  SessionJob, entities_from, declared, group_jobs, Execution, add_jobs, add_groups, nothing_added,
  order_by, session_dependencies, compute_session_execution_order,
}
use universal_data_onboarder.Session.Order.Laws.{
  has_entity, has_id, has_job, includes-entities_from, get-local_dependencies, requires-get,
  named-get, includes-filter, includes-edges-group_jobs, IsDue, IsScheduled, IsPartial,
  add_jobs-IsPartial, add_rest_done,
}

has_job-has_entity :
    (js : List SessionJob) (e id : Text) → has_job js e id ≡ true → has_entity js e ≡ true
has_job-has_entity [] e id h = cc
has_job-has_entity (j ∷ js) e id h = ground (arith, has_job-has_entity js e id)

module _ (deps : Dict (List Text)) (jobs : List SessionJob) where
  abbrev present : List Text
  present = entities_from [] jobs

  abbrev kept : Text → List Text
  kept e = filter (λ d. includes present d) (declared deps e)

  get-session_dependencies :
      (e : Text) → has_entity jobs e ≡ true → get (session_dependencies jobs deps) e ≡ some (kept e)
  unfolding session_dependencies get
  get-session_dependencies e here =
      ground
        (arith, get-local_dependencies deps present [] present e, includes-entities_from [] jobs e)

  requires-session :
      (e d id : Text)
      → has_entity jobs e ≡ true
      → includes (declared deps e) d ≡ true
      → has_job jobs d id ≡ true
      → requires (session_dependencies jobs deps) e d ≡ true
  requires-session e d id here needs there =
      requires-get (session_dependencies jobs deps) e d (kept e) (get-session_dependencies e here) (
        ground (
          arith,
          includes-filter (λ f. includes present f) (declared deps e) d,
          includes-entities_from [] jobs d,
          has_job-has_entity jobs d id,
        ))

  in_group : (e id : Text) → includes (edges (group_jobs [] jobs) e) id ≡ has_job jobs e id
  unfolding edges get
  in_group e id = includes-edges-group_jobs [] jobs e id

  -- The jobs of the entities of `before` were added.
  abbrev Covers : Execution → List Text → Type 0
  Covers x before =
      (e id : Text)
      → includes before e ≡ true
      → has_job jobs e id ≡ true
      → includes x.added id ≡ true

  group-IsDue :
      (x : Execution) (before : List Text) (e : Text)
      → ((u : Text)
          → requires (session_dependencies jobs deps) e u ≡ true
          → includes before u ≡ true)
      → Covers x before
      → IsPartial deps jobs x
      → (id : Text) → includes (edges (group_jobs [] jobs) e) id ≡ true
      → (has_job jobs e id ≡ true) × IsDue deps jobs x.ordered_ids e
  group-IsDue x before e ready covered inv id there =
      let job : has_job jobs e id ≡ true = sym (in_group e id) ∙ there in
      (
        job,
        λ d i needs other. rw inv.same at (
            covered d i
              (ready d (requires-session e d i (has_job-has_entity jobs e id job) needs other))
              other),
      )

  add_groups-IsPartial :
      (x : Execution) (before es : List Text)
      → IsOrdered (session_dependencies jobs deps) before es
      → Covers x before
      → IsPartial deps jobs x
      → IsPartial deps jobs (add_groups (group_jobs [] jobs) x es)
        × Covers (add_groups (group_jobs [] jobs) x es) (before ++ es)
  unfolding add_groups
  add_groups-IsPartial x before [] ordered covered inv = (inv, rw (append-nil before) covered)
  add_groups-IsPartial x before (e ∷ es) (ready, ordered) covered inv =
      let ids = edges (group_jobs [] jobs) e in
      let (inv', more) =
        add_jobs-IsPartial deps jobs e x ids (group-IsDue x before e ready covered inv) inv in
      let (end, all) =
        add_groups-IsPartial (add_jobs e x ids) (before ++ e ∷ []) es ordered
          (λ f id there job. ground (
            arith,
            more id,
            in_group f id,
            includes-append before (e ∷ []) f,
            ===_iff e f,
            covered f id,
          ))
          inv' in
      (end, rw (append_assoc before (e ∷ []) es) at all)

  -- The ids are those of the jobs, each once, and each after the jobs that it depends on.
  pub record IsSchedule (x : Execution) : Type 0 where
    pub distinct : IsDistinct x.ordered_ids
    pub listed : (id : Text) → includes x.ordered_ids id ≡ has_id jobs id
    pub scheduled : IsScheduled deps jobs [] x.ordered_ids x.ordered_entity_keys

  has_id-job :
      (js : List SessionJob) (id : Text)
      → has_id js id ≡ true
      → (e : Text) × (has_job js e id ≡ true)
  has_id-job [] id h = absurd (cc h)
  has_id-job (j ∷ js) id h = elim (Bool-cases (j.import_job_id === id)) [
    | inl same ↦ (j.entity_key, ground (arith, ===_iff j.entity_key j.entity_key))
    | inr other ↦ let (e, there) = has_id-job js id (ground arith) in (e, ground arith)
  ]

  has_job-has_id :
      (js : List SessionJob) (e id : Text) → has_job js e id ≡ true → has_id js id ≡ true
  has_job-has_id [] e id h = cc
  has_job-has_id (j ∷ js) e id h = ground (arith, has_job-has_id js e id)

  scheduled-job :
      (seen ids ks : List Text) (id : Text)
      → IsScheduled deps jobs seen ids ks
      → includes ids id ≡ true
      → has_id jobs id ≡ true
  scheduled-job seen [] ks id h there = cc
  scheduled-job seen (i ∷ ids) [] id h there = absurd h
  scheduled-job seen (i ∷ ids) (k ∷ ks) id (t, q, h) there =
      ground
        (arith, has_job-has_id jobs k i t, scheduled-job (seen ++ i ∷ []) ids ks id h, ===_iff i id)

  nothing-IsPartial : IsPartial deps jobs nothing_added
  nothing-IsPartial = record { distinct = tt; same = refl; scheduled = tt }

  -- The entity of a job is sorted, so its group adds the job.
  sorted-known :
      (sorted : List Text)
      → IsOrder (session_dependencies jobs deps) sorted
      → Covers (add_groups (group_jobs [] jobs) nothing_added sorted) sorted
      → (id : Text) → has_id jobs id ≡ true
      → includes (add_groups (group_jobs [] jobs) nothing_added sorted).added id ≡ true
  sorted-known sorted order covered id there =
      let (e, job) = has_id-job jobs id there in
      let found = get-session_dependencies e (has_job-has_entity jobs e id job) in
      covered e id (order.listed e ∙ named-get (session_dependencies jobs deps) e (rw found refl))
        job

  order_by-IsSchedule :
      (sorted : List Text)
      → IsOrder (session_dependencies jobs deps) sorted
      → (x : Execution) × (order_by jobs (ok sorted) ≡ ok x) × IsSchedule x
  unfolding order_by
  order_by-IsSchedule sorted order =
      let x = add_groups (group_jobs [] jobs) nothing_added sorted in
      let (inv, covered) =
        add_groups-IsPartial nothing_added [] sorted order.ordered
          (λ e id none_before _. absurd (cc none_before)) nothing-IsPartial in
      let known = sorted-known sorted order covered in
      (
        x,
        ap ok (add_rest_done deps jobs x jobs known),
        record {
          distinct = inv.distinct;
          listed = λ id. ground (
            arith,
            scheduled-job [] x.ordered_ids x.ordered_entity_keys id inv.scheduled,
            known id,
            ap (λ xs. includes xs id) inv.same,
          );
          scheduled = inv.scheduled;
        },
      )

-- A call of `computeSessionExecutionOrder` returns a schedule, in which every job id stands once, with an
-- entity of its jobs, after the ids of all jobs of the entities that this entity depends on; or it
-- throws the cycle error, and then no order meets the dependencies between the session's entities.
pub compute_session_execution_order_schedules :
    (deps : Dict (List Text)) (jobs : List SessionJob)
    → ((x : Execution) × (compute_session_execution_order jobs deps ≡ ok x)
        × IsSchedule deps jobs x)
      ⊎ ((vs : List Text) × (compute_session_execution_order jobs deps ≡ err (circular vs))
          × ¬ IsOrderable (session_dependencies jobs deps))
unfolding compute_session_execution_order order_by
compute_session_execution_order_schedules deps jobs =
    let local = session_dependencies jobs deps in
    elim (topological_sort_decides local) [
      | inl (_, (sorted, sorts, order)) ↦
          let (x, orders, schedule) = order_by-IsSchedule deps jobs sorted order in
          inl (x, rw sorts orders, schedule)
      | inr (cyclic, refuses) ↦ inr (keys (build_graph local), rw refuses refl, cyclic)
    ]
