-- ===== src/Session/Graph/Build.antt =====
-- orchestration/dependencyGraph.js: the graph that `topologicalSort` builds has an edge for each
-- declared dependency, and no other.
use universal_data_onboarder.Base.{
  ◌≡◌, Bool, true, false, ◌&&◌, ◌||◌, List, [], ◌∷◌, Text, includes, ◌===◌, ===_iff, arith, inl,
  inr, Bool-cases, add_new,
}
use universal_data_onboarder.Base.Dict.{Dict, get, has, keys, get-put}
use universal_data_onboarder.Base.Distinct.{IsDistinct, includes-append, IsDistinct-put}
use universal_data_onboarder.Session.Graph.{
  Graph, edges, add_vertex, add_edge, add_dependencies, add_entities, build_graph,
}

-- An entry of `entity` lists `dep`.
abbrev pub requires : Dict (List Text) → Text → Text → Bool
requires [] entity dep = false
requires ((e, deps) ∷ rest) entity dep =
    (e === entity && includes deps dep) || requires rest entity dep

-- `v` has an entry or is in one.
abbrev pub named : Dict (List Text) → Text → Bool
named [] v = false
named ((e, deps) ∷ rest) v = e === v || includes deps v || named rest v

pub includes-add_new :
    (xs : List Text) (x v : Text) → includes (add_new xs x) v ≡ includes xs v || x === v
unfolding add_new
includes-add_new xs x v = ground (arith, includes-append xs (x ∷ []) v, ===_iff x v)

pub edges-add_vertex : (g : Graph) (w u : Text) → edges (add_vertex g w) u ≡ edges g u
unfolding edges add_vertex
edges-add_vertex g w u = ground (arith, get-put g w u [], ===_iff w u)

has-add_vertex : (g : Graph) (w u : Text) → has (add_vertex g w) u ≡ w === u || has g u
unfolding add_vertex
has-add_vertex g w u = ground (arith, get-put g w u [], ===_iff w u)

edges-add_edge :
    (g : Graph) (dep entity u v : Text)
    → includes (edges (add_edge g dep entity) u) v
      ≡ includes (edges g u) v || (dep === u && entity === v)
unfolding edges add_edge
edges-add_edge g dep entity u v = ground (
  arith,
  get-put g dep u (add_new (edges g dep) entity),
  includes-add_new (edges g dep) entity v,
  ===_iff dep u,
)

has-add_edge :
    (g : Graph) (dep entity u : Text) → has (add_edge g dep entity) u ≡ dep === u || has g u
unfolding add_edge
has-add_edge g dep entity u =
    ground (arith, get-put g dep u (add_new (edges g dep) entity), ===_iff dep u)

edges-add_dependencies :
    (g : Graph) (entity : Text) (deps : List Text) (u v : Text)
    → includes (edges (add_dependencies g entity deps) u) v
      ≡ includes (edges g u) v || (entity === v && includes deps u)
unfolding add_dependencies
edges-add_dependencies g entity [] u v = ground arith
edges-add_dependencies g entity (dep ∷ deps) u v = ground (
  arith,
  edges-add_dependencies (add_edge (add_vertex g dep) dep entity) entity deps u v,
  edges-add_edge (add_vertex g dep) dep entity u v,
  edges-add_vertex g dep u,
)

has-add_dependencies :
    (g : Graph) (entity : Text) (deps : List Text) (u : Text)
    → has (add_dependencies g entity deps) u ≡ includes deps u || has g u
unfolding add_dependencies
has-add_dependencies g entity [] u = ground arith
has-add_dependencies g entity (dep ∷ deps) u = ground (
  arith,
  has-add_dependencies (add_edge (add_vertex g dep) dep entity) entity deps u,
  has-add_edge (add_vertex g dep) dep entity u,
  has-add_vertex g dep u,
)

edges-add_entities :
    (g : Graph) (ds : Dict (List Text)) (u v : Text)
    → includes (edges (add_entities g ds) u) v ≡ includes (edges g u) v || requires ds v u
unfolding add_entities
edges-add_entities g [] u v = ground arith
edges-add_entities g ((e, deps) ∷ ds) u v = ground (
  arith,
  edges-add_entities (add_dependencies (add_vertex g e) e deps) ds u v,
  edges-add_dependencies (add_vertex g e) e deps u v,
  edges-add_vertex g e u,
)

has-add_entities :
    (g : Graph) (ds : Dict (List Text)) (u : Text)
    → has (add_entities g ds) u ≡ has g u || named ds u
unfolding add_entities
has-add_entities g [] u = ground arith
has-add_entities g ((e, deps) ∷ ds) u = ground (
  arith,
  has-add_entities (add_dependencies (add_vertex g e) e deps) ds u,
  has-add_dependencies (add_vertex g e) e deps u,
  has-add_vertex g e u,
)

pub edges-build_graph :
    (ds : Dict (List Text)) (u v : Text) → includes (edges (build_graph ds) u) v ≡ requires ds v u
unfolding build_graph edges get
edges-build_graph ds u v = edges-add_entities [] ds u v

pub has-build_graph : (ds : Dict (List Text)) (u : Text) → has (build_graph ds) u ≡ named ds u
unfolding build_graph get
has-build_graph ds u = has-add_entities [] ds u

add_vertex-IsDistinct :
    (g : Graph) (v : Text) → IsDistinct (keys g) → IsDistinct (keys (add_vertex g v))
unfolding add_vertex
add_vertex-IsDistinct g v d = elim (Bool-cases (has g v)) [
  | inl there ↦ rw there d
  | inr new ↦ rw new (IsDistinct-put g v [] d)
]

add_dependencies-IsDistinct :
    (g : Graph) (entity : Text) (deps : List Text)
    → IsDistinct (keys g)
    → IsDistinct (keys (add_dependencies g entity deps))
unfolding add_dependencies add_edge
add_dependencies-IsDistinct g entity [] d = d
add_dependencies-IsDistinct g entity (dep ∷ deps) d =
    add_dependencies-IsDistinct (add_edge (add_vertex g dep) dep entity) entity deps (
      IsDistinct-put (add_vertex g dep) dep (add_new (edges (add_vertex g dep) dep) entity)
        (add_vertex-IsDistinct g dep d))

add_entities-IsDistinct :
    (g : Graph) (ds : Dict (List Text))
    → IsDistinct (keys g)
    → IsDistinct (keys (add_entities g ds))
unfolding add_entities
add_entities-IsDistinct g [] d = d
add_entities-IsDistinct g ((e, deps) ∷ ds) d =
    add_entities-IsDistinct (add_dependencies (add_vertex g e) e deps) ds
      (add_dependencies-IsDistinct (add_vertex g e) e deps (add_vertex-IsDistinct g e d))

pub build_graph-IsDistinct : (ds : Dict (List Text)) → IsDistinct (keys (build_graph ds))
unfolding build_graph
build_graph-IsDistinct ds = add_entities-IsDistinct [] ds tt

-- An edge goes from a key to a key.
pub requires-named :
    (ds : Dict (List Text)) (v u : Text)
    → requires ds v u ≡ true
    → (named ds v ≡ true) × (named ds u ≡ true)
requires-named [] v u h = cc
requires-named ((e, deps) ∷ ds) v u h =
    (ground (arith, requires-named ds v u), ground (arith, requires-named ds v u))
