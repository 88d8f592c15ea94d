-- ===== src/Session/Graph/Acyclic.antt =====
-- orchestration/dependencyGraph.js: which graphs `isAcyclic` accepts.
use universal_data_onboarder.Base.{
  ◌≡◌, refl, sym, ◌∙◌, ap, ℕ, zero, suc, ◌<◌, true, false, ◌&&◌, ◌==◌, List, [], ◌∷◌, ◌++◌, some,
  Text, includes, ◌===◌, ===_iff, if◌then◌else◌, arith, ◌⊎◌, inl, inr, Bool-cases, length,
  length-map, append-nil,
}
use universal_data_onboarder.Base.Dict.{keys}
use universal_data_onboarder.Base.Distinct.{
  IsDistinct, includes-append, has-keys, length-subset, length-subset_strict,
}
use universal_data_onboarder.Session.Graph.{
  Graph, edges, kahn, first_frontier, indegrees, is_acyclic, visited_all,
}
use universal_data_onboarder.Session.Graph.Degrees.{incoming, times}
use universal_data_onboarder.Session.Graph.Start.{mentioned, has-indegrees, indegrees-IsDistinct}
use universal_data_onboarder.Session.Graph.Loop.{
  IsVisiting-first, loop_ends, IsSorted, mentioned-edge, edge-key, mentioned_key,
}

-- Every edge goes up in some numbering of the vertices, which is so just when there is no cycle.
abbrev pub IsAcyclic : Graph → Type 0
IsAcyclic g = (rank : Text → ℕ) × ((u v : Text) → includes (edges g u) v ≡ true → rank u < rank v)

-- Where `v` stands in a list.
abbrev position : List Text → Text → ℕ
position [] v = 0
position (w ∷ ws) v = let rest = position ws v in if w === v then 0 else suc rest

position_sorted :
    (g : Graph) (seen ws : List Text) (u v : Text)
    → IsSorted g seen ws
    → includes ws v ≡ true
    → includes (edges g u) v ≡ true
    → (includes seen u ≡ true) ⊎ (position ws u < position ws v)
position_sorted g seen [] u v h there edge = cc
position_sorted g seen (w ∷ ws) u v (r, h) there edge = elim (Bool-cases (w === v)) [
  | inl same ↦ inl (r u (rw ((===_iff w v).0 same) edge))
  | inr other ↦ elim (position_sorted g (seen ++ w ∷ []) ws u v h (ground arith) edge) [
    | inl before ↦ ground (arith, includes-append seen (w ∷ []) u)
    | inr less ↦ ground arith
  ]
]

times_none : (v : Text) (ts : List Text) → includes ts v ≡ false → times v ts ≡ 0
times_none v [] h = refl
times_none v (t ∷ ts) h = ground (arith, times_none v ts)

incoming_none :
    (g : Graph) (gone : List Text) (v : Text) (us : List Text)
    → ((u : Text) → includes (edges g u) v ≡ true → includes gone u ≡ true)
    → incoming g gone v us ≡ 0
incoming_none g gone v [] h = refl
incoming_none g gone v (u ∷ us) h =
    ground (arith, h u, incoming_none g gone v us h, times_none v (edges g u))

module _ (g : Graph) (keys_distinct : IsDistinct (keys g)) where
  -- What both loops visit, in the order in which they do.
  pub record IsRun (all : List Text) : Type 0 where
    pub distinct : IsDistinct all
    pub listed :
        (v : Text) → includes all v ≡ (mentioned g (keys g) v && incoming g all v (keys g) == 0)
    pub sorted : IsSorted g [] all
    pub sorts :
        kahn g (length (indegrees g)) (first_frontier g).degrees (first_frontier g).queue []
        ≡ some all
    pub decides : is_acyclic g ≡ some (length all == length (indegrees g))

  pub run : (all : List Text) × IsRun all
  unfolding is_acyclic
  run =
      let f = first_frontier g in
      let (all, ds, end, sorts, counts) =
        loop_ends g keys_distinct (length (indegrees g)) f.degrees f.queue [] (omega arith)
          (IsVisiting-first g) in
      let whole = append-nil all in
      (
        all,
        record {
          distinct = rw whole at end.frontier.distinct;
          listed = rw whole at end.frontier.listed;
          sorted = end.order;
          sorts = sorts;
          decides = ap (visited_all (length f.degrees)) counts;
        },
      )

  module _ (all : List Text) (r : IsRun all) where
    size : length (keys (indegrees g)) ≡ length (indegrees g)
    size = length-map (λ e. e.0) (indegrees g)

    mentioned-key : (v : Text) → mentioned g (keys g) v ≡ includes (keys (indegrees g)) v
    mentioned-key v = sym (has-indegrees g v) ∙ has-keys (indegrees g) v

    -- A vertex that the loop leaves out makes its list the shorter one.
    pub full :
        length all ≡ length (indegrees g)
        → (v : Text) → mentioned g (keys g) v ≡ true
        → includes all v ≡ true
    full same v there = elim (Bool-cases (includes all v)) [
      | inl there ↦ there
      | inr missing ↦
          let shorter =
            length-subset_strict all (keys (indegrees g)) v r.distinct
              (λ w h. ground (arith, r.listed w, mentioned-key w)) (sym (mentioned-key v) ∙ there)
              missing in
          absurd (omega (arith, shorter, size, same))
    ]

    pub IsAcyclic-full : length all ≡ length (indegrees g) → IsAcyclic g
    IsAcyclic-full same = (
      position all,
      λ u v edge.
          elim (position_sorted g [] all u v r.sorted
            (full same v (
              mentioned-edge g keys_distinct (keys g) u v (edge-key g keys_distinct u v edge) edge))
            edge) [ inl before ↦ absurd (cc before) | inr less ↦ less ],
    )

    reached :
        (rank : Text → ℕ)
        → ((u v : Text) → includes (edges g u) v ≡ true → rank u < rank v)
        → (n : ℕ) (v : Text) → rank v < n
        → mentioned g (keys g) v ≡ true
        → includes all v ≡ true
    reached rank up zero v h there = absurd (omega (arith, h))
    reached rank up (suc n) v h there =
        let before = incoming_none g all v (keys g) (λ u edge.
          reached rank up n u (omega (arith, up u v edge))
            (mentioned_key g keys_distinct (keys g) u (edge-key g keys_distinct u v edge))) in
        ground (arith, r.listed v)

    pub full_acyclic : IsAcyclic g → length all ≡ length (indegrees g)
    full_acyclic (rank, up) =
        let le =
          length-subset all (keys (indegrees g)) r.distinct
            (λ w h. ground (arith, r.listed w, mentioned-key w)) in
        let ge =
          length-subset (keys (indegrees g)) all (indegrees-IsDistinct g)
            (λ w h. reached rank up (suc (rank w)) w (omega arith) (mentioned-key w ∙ h)) in
        omega (arith, le, ge, size)
