-- ===== src/Session/Graph.antt =====
-- orchestration/dependencyGraph.js: `isAcyclic`, `topologicalSort`.
--
-- A `Map` of `Set`s is a table of lists; `degree.get(v) ?? 1` may in principle fall below zero, so
-- degrees are integers. Object keys that spell array indices, which `Object.entries` would move to
-- the front, are not among the entity keys.
pub mod Degrees
pub mod Start
pub mod Incoming
pub mod Loop
pub mod Build
pub mod Acyclic
pub mod Sort
use universal_data_onboarder.Base.{
  ℕ, zero, suc, ◌+◌, ◌-◌, Bool, true, false, ◌==◌, List, [], ◌∷◌, ◌++◌, Option, none, some, Text,
  length, includes, ◌===◌, if◌then◌else◌, ℤ, pos, negsuc, add_new,
}
use universal_data_onboarder.Base.Dict.{Dict, get, put, has, keys}
use universal_data_onboarder.Base.Result.{Result, ok, err}

abbrev pub increment : ℤ → ℤ
increment (pos n) = pos (suc n)
increment (negsuc zero) = pos zero
increment (negsuc (suc n)) = negsuc n

abbrev pub decrement : ℤ → ℤ
decrement (pos zero) = negsuc zero
decrement (pos (suc n)) = pos n
decrement (negsuc n) = negsuc (suc n)

abbrev pub is_zero : ℤ → Bool
is_zero (pos zero) = true
is_zero _ = false

-- A vertex, and the vertices its edges go to.
abbrev pub Graph : Type 0
Graph = Dict (List Text)

abbrev pub Degrees : Type 0
Degrees = Dict ℤ

-- `m.get(k) ?? d`
abbrev pub or_else {ℓ} : {A : Type ℓ} → A → Option A → A
or_else d none = d
or_else d (some a) = a

-- `graph.get(vertex) ?? []`
unfoldable pub edges : Graph → Text → List Text
unfolding get
edges g v = or_else [] (get g v)

-- `if (!indegree.has(vertex)) indegree.set(vertex, 0)`
unfoldable pub ensure : Degrees → Text → Degrees
unfolding get put
ensure ds v = if has ds v then ds else put ds v (pos 0)

-- `indegree.set(dep, (indegree.get(dep) ?? 0) + 1)`
unfoldable pub raise : Degrees → Text → Degrees
unfolding get put
raise ds v = put ds v (increment (or_else (pos 0) (get ds v)))

unfoldable pub count_targets : Degrees → List Text → Degrees
unfolding ensure raise
count_targets ds [] = ds
count_targets ds (t ∷ ts) = count_targets (raise (ensure ds t) t) ts

unfoldable pub count_edges : Graph → Degrees → List Text → Degrees
unfolding ensure count_targets edges
count_edges g ds [] = ds
count_edges g ds (v ∷ vs) = count_edges g (count_targets (ensure ds v) (edges g v)) vs

unfoldable pub indegrees : Graph → Degrees
unfolding count_edges
indegrees g = count_edges g [] (keys g)

-- The first queue: the vertices with no incoming edge.
unfoldable pub sources : Degrees → List Text
sources [] = []
sources ((v, d) ∷ ds) = let rest = sources ds in if is_zero d then v ∷ rest else rest

pub record Frontier : Type 0 where
  pub degrees : Degrees
  pub queue : List Text

-- `const newDeg = (indegree.get(dep) ?? 1) - 1; indegree.set(dep, newDeg);
-- if (newDeg === 0) queue.push(dep)`
unfoldable pub lower_degree : Frontier → Text → Frontier
unfolding get put
lower_degree f t =
    let d = decrement (or_else (pos 1) (get f.degrees t)) in
    record { degrees = put f.degrees t d; queue = if is_zero d then f.queue ++ t ∷ [] else f.queue }

unfoldable pub lower_all : Frontier → List Text → Frontier
unfolding lower_degree
lower_all f [] = f
lower_all f (t ∷ ts) = lower_all (lower_degree f t) ts

unfoldable pub first_frontier : Graph → Frontier
unfolding indegrees sources
first_frontier g = record { degrees = indegrees g; queue = sources (indegrees g) }

-- The frontier after `v` was shifted off its queue.
unfoldable pub visit : Graph → Degrees → Text → List Text → Frontier
unfolding lower_all edges
visit g ds v queue = lower_all (record { degrees = ds; queue = queue }) (edges g v)

-- The loop of `isAcyclic`, on fuel, with the number of vertices it visits.
unfoldable pub count_visits : Graph → ℕ → Degrees → List Text → ℕ → Option ℕ
unfolding visit
count_visits g fuel ds [] visited = some visited
count_visits g zero ds (v ∷ queue) visited = none
count_visits g (suc fuel) ds (v ∷ queue) visited =
    let f = visit g ds v queue in count_visits g fuel f.degrees f.queue (visited + 1)

-- `visited === indegree.size`
abbrev pub visited_all : ℕ → Option ℕ → Option Bool
visited_all size none = none
visited_all size (some visited) = some (visited == size)

-- `isAcyclic`
unfoldable pub is_acyclic : Graph → Option Bool
unfolding first_frontier count_visits
is_acyclic g =
    let f = first_frontier g in
    visited_all (length f.degrees) (count_visits g (length f.degrees) f.degrees f.queue 0)

-- The loop of `topologicalSort`, on fuel.
unfoldable pub kahn : Graph → ℕ → Degrees → List Text → List Text → Option (List Text)
unfolding visit
kahn g fuel ds [] sorted = some sorted
kahn g zero ds (v ∷ queue) sorted = none
kahn g (suc fuel) ds (v ∷ queue) sorted =
    let f = visit g ds v queue in kahn g fuel f.degrees f.queue (sorted ++ v ∷ [])

-- `if (!graph.has(v)) graph.set(v, new Set())`
unfoldable pub add_vertex : Graph → Text → Graph
unfolding get put
add_vertex g v = if has g v then g else put g v []

-- `graph.get(dep).add(entity)`
unfoldable pub add_edge : Graph → Text → Text → Graph
unfolding put edges add_new
add_edge g dep entity = put g dep (add_new (edges g dep) entity)

unfoldable pub add_dependencies : Graph → Text → List Text → Graph
unfolding add_vertex add_edge
add_dependencies g entity [] = g
add_dependencies g entity (dep ∷ deps) =
    add_dependencies (add_edge (add_vertex g dep) dep entity) entity deps

unfoldable pub add_entities : Graph → Dict (List Text) → Graph
unfolding add_vertex add_dependencies
add_entities g [] = g
add_entities g ((entity, deps) ∷ rest) =
    add_entities (add_dependencies (add_vertex g entity) entity deps) rest

unfoldable pub build_graph : Dict (List Text) → Graph
unfolding add_entities
build_graph dependencies = add_entities [] dependencies

pub data SortError : Type 0 where
  -- Thrown with status code 400.
  circular : List Text → SortError
  incomplete : ℕ → SortError
  out_of_fuel : SortError

check_complete : Graph → Option (List Text) → Result SortError (List Text)
check_complete g none = err out_of_fuel
check_complete g (some sorted) =
    if length sorted == length g then ok sorted else err (incomplete (length g - length sorted))

sort_checked : Graph → Option Bool → Result SortError (List Text)
unfolding first_frontier kahn check_complete
sort_checked g none = err out_of_fuel
sort_checked g (some false) = err (circular (keys g))
sort_checked g (some true) =
    let f = first_frontier g in check_complete g (kahn g (length f.degrees) f.degrees f.queue [])

-- `topologicalSort`
unfoldable pub topological_sort : Dict (List Text) → Result SortError (List Text)
unfolding build_graph is_acyclic sort_checked
topological_sort dependencies = let g = build_graph dependencies in sort_checked g (is_acyclic g)
