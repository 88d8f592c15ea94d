-- ===== src/Session/Tests.antt =====
-- The session functions on small sessions: branches and roles before employees.
use universal_data_onboarder.Base.{
  ◌≡◌, refl, ◌⊎◌, true, false, List, [], ◌∷◌, some, Text, codes, ◌===◌,
}
use universal_data_onboarder.Base.Dict.{Dict, keys}
use universal_data_onboarder.Base.Distinct.{IsDistinct}
use universal_data_onboarder.Base.Result.{ok, err}
use universal_data_onboarder.Session.Graph.{
  Graph, is_acyclic, circular, topological_sort, build_graph,
}
use universal_data_onboarder.Session.Graph.Acyclic.{IsAcyclic}
use universal_data_onboarder.Session.Graph.Sort.{
  IsOrder, IsOrderable, is_acyclic_decides, topological_sort_decides,
}
use universal_data_onboarder.Session.Order.{
  SessionJob, Execution, compute_session_execution_order, session_dependencies,
}
use universal_data_onboarder.Session.Order.Schedule.{
  IsSchedule, compute_session_execution_order_schedules,
}

abbrev employee : Text
employee = codes "employee"

abbrev role : Text
role = codes "role"

abbrev branch : Text
branch = codes "branch"

abbrev staff : Dict (List Text)
staff = (employee, role ∷ branch ∷ []) ∷ (role, branch ∷ []) ∷ []

abbrev loop : Dict (List Text)
loop = (employee, role ∷ []) ∷ (role, employee ∷ []) ∷ []

abbrev two_edges : Graph
two_edges = (branch, role ∷ []) ∷ (role, []) ∷ []

sorts_staff : topological_sort staff ≡ ok (branch ∷ role ∷ employee ∷ [])
unfolding topological_sort ◌===◌
sorts_staff = refl

refuses_loop : topological_sort loop ≡ err (circular (employee ∷ role ∷ []))
unfolding topological_sort ◌===◌
refuses_loop = refl

abbrev jobs : List SessionJob
jobs =
    record { import_job_id = codes "j1"; entity_key = employee }
    ∷ record { import_job_id = codes "j2"; entity_key = branch }
    ∷ record { import_job_id = codes "j3"; entity_key = employee }
    ∷ []

orders_jobs :
    compute_session_execution_order jobs staff
    ≡ ok (record {
      ordered_ids = codes "j2" ∷ codes "j1" ∷ codes "j3" ∷ [];
      ordered_entity_keys = branch ∷ employee ∷ employee ∷ [];
      added = codes "j2" ∷ codes "j1" ∷ codes "j3" ∷ [];
    })
unfolding compute_session_execution_order ◌===◌
orders_jobs = refl

distinct_edges : IsDistinct (keys two_edges)
unfolding ◌===◌
distinct_edges = (refl, (refl, tt))

is_acyclic_decides_example :
    ((is_acyclic two_edges ≡ some true) × IsAcyclic two_edges)
    ⊎ ((is_acyclic two_edges ≡ some false) × ¬ IsAcyclic two_edges)
is_acyclic_decides_example = is_acyclic_decides two_edges distinct_edges

topological_sort_decides_example :
    (IsOrderable staff
      × ((sorted : List Text) × (topological_sort staff ≡ ok sorted) × IsOrder staff sorted))
    ⊎ (¬ IsOrderable staff × (topological_sort staff ≡ err (circular (keys (build_graph staff)))))
topological_sort_decides_example = topological_sort_decides staff

compute_session_execution_order_schedules_example :
    ((x : Execution) × (compute_session_execution_order jobs staff ≡ ok x)
      × IsSchedule staff jobs x)
    ⊎ ((vs : List Text) × (compute_session_execution_order jobs staff ≡ err (circular vs))
        × ¬ IsOrderable (session_dependencies jobs staff))
compute_session_execution_order_schedules_example =
    compute_session_execution_order_schedules staff jobs
