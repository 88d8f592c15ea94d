-- ===== src/Session/Graph/Sort.antt =====
-- orchestration/dependencyGraph.js: what `isAcyclic` and `topologicalSort` return.
use universal_data_onboarder.Base.{
  ◌≡◌, refl, sym, ◌∙◌, ap, ℕ, ◌<◌, true, false, ◌==◌, ==_iff, List, [], ◌∷◌, ◌++◌, some, Text,
  includes, ===_iff, arith, ◌⊎◌, inl, inr, Bool-cases, length, length-map,
}
use universal_data_onboarder.Base.Dict.{Dict, keys}
use universal_data_onboarder.Base.Distinct.{IsDistinct, has-keys, length-subset}
use universal_data_onboarder.Base.Result.{ok, err}
use universal_data_onboarder.Session.Graph.{
  Graph, indegrees, is_acyclic, circular, check_complete, sort_checked, build_graph,
  topological_sort,
}
use universal_data_onboarder.Session.Graph.Start.{mentioned, has-indegrees, indegrees-IsDistinct}
use universal_data_onboarder.Session.Graph.Loop.{IsSorted, mentioned_key}
use universal_data_onboarder.Session.Graph.Build.{
  requires, named, requires-named, edges-build_graph, has-build_graph, build_graph-IsDistinct,
}
use universal_data_onboarder.Session.Graph.Acyclic.{
  IsAcyclic, IsRun, run, full, IsAcyclic-full, full_acyclic,
}

-- `isAcyclic` ends on every graph, and answers `true` exactly if the vertices can be numbered so
-- that every edge goes up.
pub is_acyclic_decides :
    (g : Graph)
    → IsDistinct (keys g)
    → ((is_acyclic g ≡ some true) × IsAcyclic g) ⊎ ((is_acyclic g ≡ some false) × ¬ IsAcyclic g)
is_acyclic_decides g d =
    let (all, r) = run g d in
    elim (Bool-cases (length all == length (indegrees g))) [
      | inl same ↦ inl (
        r.decides ∙ ap some same,
        IsAcyclic-full g d all r ((==_iff (length all) (length (indegrees g))).0 same),
      )
      | inr less ↦ inr (
        r.decides ∙ ap some less,
        λ a. cc (less, (==_iff (length all) (length (indegrees g))).1 (full_acyclic g d all r a)),
      )
    ]

-- Each vertex comes after the entities that it requires.
abbrev pub IsOrdered : Dict (List Text) → List Text → List Text → Type 0
IsOrdered deps seen [] = Unit
IsOrdered deps seen (v ∷ vs) =
    ((u : Text) → requires deps v u ≡ true → includes seen u ≡ true)
    × IsOrdered deps (seen ++ v ∷ []) vs

-- The requirements can be met in some order: there is a numbering that each of them goes down in.
abbrev pub IsOrderable : Dict (List Text) → Type 0
IsOrderable deps = (rank : Text → ℕ) × ((v u : Text) → requires deps v u ≡ true → rank u < rank v)

IsOrdered-sorted :
    (deps : Dict (List Text)) (seen vs : List Text)
    → IsSorted (build_graph deps) seen vs
    → IsOrdered deps seen vs
IsOrdered-sorted deps seen [] h = tt
IsOrdered-sorted deps seen (v ∷ vs) (r, h) =
    (λ u q. r u (edges-build_graph deps u v ∙ q), IsOrdered-sorted deps (seen ++ v ∷ []) vs h)

module _ (deps : Dict (List Text)) where
  abbrev graph : Graph
  graph = build_graph deps

  mentioned_closed :
      (us : List Text) (v : Text)
      → ((u : Text) → includes us u ≡ true → named deps u ≡ true)
      → mentioned graph us v ≡ true
      → named deps v ≡ true
  mentioned_closed [] v sub h = cc
  mentioned_closed (u ∷ us) v sub h = ground (
    arith,
    mentioned_closed us v (λ w there. sub w (ground arith)),
    sub u (ground (arith, ===_iff u u)),
    ===_iff u v,
    edges-build_graph deps u v,
    requires-named deps v u,
  )

  keys-named : (v : Text) → includes (keys graph) v ≡ named deps v
  keys-named v = sym (has-keys graph v) ∙ has-build_graph deps v

  mentioned-named : (v : Text) → mentioned graph (keys graph) v ≡ named deps v
  mentioned-named v = ground (
    arith,
    mentioned_closed (keys graph) v (λ u h. sym (keys-named u) ∙ h),
    mentioned_key graph (build_graph-IsDistinct deps) (keys graph) v,
    keys-named v,
  )

  indegrees_named : (v : Text) → includes (keys (indegrees graph)) v ≡ includes (keys graph) v
  indegrees_named v =
      ground (
        arith,
        has-keys (indegrees graph) v,
        has-indegrees graph v,
        mentioned-named v,
        keys-named v,
      )

  size : length (indegrees graph) ≡ length graph
  size =
      let le =
        length-subset (keys (indegrees graph)) (keys graph) (indegrees-IsDistinct graph)
          (λ v h. sym (indegrees_named v) ∙ h) in
      let ge =
        length-subset (keys graph) (keys (indegrees graph)) (build_graph-IsDistinct deps)
          (λ v h. indegrees_named v ∙ h) in
      omega (arith, le, ge, length-map (λ e. e.0) (indegrees graph), length-map (λ e. e.0) graph)

  IsAcyclic-orderable : IsOrderable deps → IsAcyclic graph
  IsAcyclic-orderable (rank, down) =
      (rank, λ u v e. down v u (sym (edges-build_graph deps u v) ∙ e))

  IsOrderable-acyclic : IsAcyclic graph → IsOrderable deps
  IsOrderable-acyclic (rank, up) = (rank, λ v u q. up u v (edges-build_graph deps u v ∙ q))

  -- What the sorted list is.
  pub record IsOrder (sorted : List Text) : Type 0 where
    pub distinct : IsDistinct sorted
    pub listed : (v : Text) → includes sorted v ≡ named deps v
    pub ordered : IsOrdered deps [] sorted

  run-IsOrder :
      (all : List Text)
      → IsRun graph (build_graph-IsDistinct deps) all
      → length all ≡ length (indegrees graph)
      → IsOrder all
  run-IsOrder all r same = record {
    distinct = r.distinct;
    listed = λ v. ground (
      arith,
      r.listed v,
      full graph (build_graph-IsDistinct deps) all r same v,
      mentioned-named v,
    );
    ordered = IsOrdered-sorted deps [] all r.sorted;
  }

  sort_accepted :
      (all : List Text)
      → IsRun graph (build_graph-IsDistinct deps) all
      → length all ≡ length (indegrees graph)
      → is_acyclic graph ≡ some true
      → topological_sort deps ≡ ok all
  unfolding topological_sort sort_checked check_complete
  sort_accepted all r same accepted =
      rw (accepted, r.sorts, (==_iff (length all) (length graph)).1 (same ∙ size)) refl

-- `topologicalSort` returns in every case. It returns a list if the declared dependencies can be
-- met in some order, with each entity and each dependency once and each after all that it
-- requires; if not, it throws the error that names the vertices.
pub topological_sort_decides :
    (deps : Dict (List Text))
    → (IsOrderable deps
        × ((sorted : List Text) × (topological_sort deps ≡ ok sorted) × IsOrder deps sorted))
      ⊎ (¬ IsOrderable deps × (topological_sort deps ≡ err (circular (keys (build_graph deps)))))
unfolding topological_sort sort_checked
topological_sort_decides deps =
    let g = build_graph deps in
    let d = build_graph-IsDistinct deps in
    let (all, r) = run g d in
    elim (is_acyclic_decides g d) [
      | inl (accepted, a) ↦
          let same = full_acyclic g d all r a in
          inl (
            IsOrderable-acyclic deps a,
            (all, sort_accepted deps all r same accepted, run-IsOrder deps all r same),
          )
      | inr (refused, cyclic) ↦ inr ((λ o. cyclic (IsAcyclic-orderable deps o)), rw refused refl)
    ]
