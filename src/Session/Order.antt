-- ===== src/Session/Order.antt =====
-- orchestration/dependencyGraph.js: `computeSessionExecutionOrder`.
pub mod Laws
pub mod Schedule
use universal_data_onboarder.Base.{
  Bool, true, false, List, [], ◌∷◌, ◌++◌, Option, none, some, Text, includes, ◌===◌, filter,
  if◌then◌else◌, add_new,
}
use universal_data_onboarder.Base.Dict.{Dict, get, put, has}
use universal_data_onboarder.Base.Result.{Result, ok, err}
use universal_data_onboarder.Session.Graph.{or_else, edges, add_vertex, SortError, topological_sort}

pub record SessionJob : Type 0 where
  pub import_job_id : Text
  pub entity_key : Text

-- `[...new Set(jobs.map((j) => j.entityKey))]`, with the entities so far.
unfoldable pub entities_from : List Text → List SessionJob → List Text
unfolding add_new
entities_from es [] = es
entities_from es (j ∷ js) = entities_from (add_new es j.entity_key) js

-- `dependenciesByEntity[entity] ?? []`
unfoldable pub declared : Dict (List Text) → Text → List Text
unfolding get
declared deps e = or_else [] (get deps e)

unfoldable pub local_dependencies :
    Dict (List Text) → List Text → Dict (List Text) → List Text → Dict (List Text)
unfolding declared put
local_dependencies deps present acc [] = acc
local_dependencies deps present acc (e ∷ es) =
    local_dependencies deps present (put acc e (filter (λ d. includes present d) (declared deps e)))
      es

-- `jobsByEntity.get(job.entityKey).push(job.importJobId)`
unfoldable pub group_jobs : Dict (List Text) → List SessionJob → Dict (List Text)
unfolding add_vertex edges put
group_jobs m [] = m
group_jobs m (j ∷ js) =
    let m' = add_vertex m j.entity_key in
    group_jobs (put m' j.entity_key (edges m' j.entity_key ++ j.import_job_id ∷ [])) js

pub record Execution : Type 0 where
  pub ordered_ids : List Text
  pub ordered_entity_keys : List Text
  pub added : List Text

unfoldable pub add_job : Text → Execution → Text → Execution
unfolding add_new
add_job entity x id = if includes x.added id then x else record {
  ordered_ids = x.ordered_ids ++ id ∷ [];
  ordered_entity_keys = x.ordered_entity_keys ++ entity ∷ [];
  added = add_new x.added id;
}

unfoldable pub add_jobs : Text → Execution → List Text → Execution
unfolding add_job
add_jobs entity x [] = x
add_jobs entity x (id ∷ ids) = add_jobs entity (add_job entity x id) ids

unfoldable pub add_groups : Dict (List Text) → Execution → List Text → Execution
unfolding add_jobs edges
add_groups groups x [] = x
add_groups groups x (e ∷ es) = add_groups groups (add_jobs e x (edges groups e)) es

unfoldable pub add_rest : Execution → List SessionJob → Execution
unfolding add_job
add_rest x [] = x
add_rest x (j ∷ js) = add_rest (add_job j.entity_key x j.import_job_id) js

abbrev pub nothing_added : Execution
nothing_added = record { ordered_ids = []; ordered_entity_keys = []; added = [] }

order_by : List SessionJob → Result SortError (List Text) → Result SortError Execution
unfolding add_rest add_groups group_jobs
order_by jobs (err e) = err e
order_by jobs (ok sorted) =
    ok (add_rest (add_groups (group_jobs [] jobs) nothing_added sorted) jobs)

-- The dependencies between the entities of `jobs`.
unfoldable pub session_dependencies : List SessionJob → Dict (List Text) → Dict (List Text)
unfolding entities_from local_dependencies
session_dependencies jobs deps =
    let present = entities_from [] jobs in local_dependencies deps present [] present

-- `computeSessionExecutionOrder`
unfoldable pub compute_session_execution_order :
    List SessionJob → Dict (List Text) → Result SortError Execution
unfolding order_by session_dependencies topological_sort
compute_session_execution_order jobs deps =
    order_by jobs (topological_sort (session_dependencies jobs deps))
