-- ===== src/Session/Graph/Loop.antt =====
-- orchestration/dependencyGraph.js: the loop that empties the queue.
use universal_data_onboarder.Base.{
  ◌≡◌, refl, ℕ, zero, suc, ◌+◌, ◌≤◌, true, List, [], ◌∷◌, ◌++◌, some, Text, includes, ===_iff,
  arith, length, append_assoc, length-append, append-nil, length-map,
}
use universal_data_onboarder.Base.Dict.{keys}
use universal_data_onboarder.Base.Distinct.{
  IsDistinct, includes-append, has-keys, length-subset, IsDistinct-middle,
}
use universal_data_onboarder.Session.Graph.{
  Graph, Degrees, edges, visit, kahn, indegrees, count_visits, first_frontier,
}
use universal_data_onboarder.Session.Graph.Degrees.{incoming, IsFrontier, lower_all-IsFrontier}
use universal_data_onboarder.Session.Graph.Start.{
  mentioned, has-indegrees, first_frontier-IsFrontier,
}
use universal_data_onboarder.Session.Graph.Incoming.{edges_absent, incoming-visit, incoming_zero}

-- `v` comes after everything that has an edge to it.
abbrev pub IsReady : Graph → List Text → Text → Type 0
IsReady g seen v = (u : Text) → includes (edges g u) v ≡ true → includes seen u ≡ true

abbrev pub IsSorted : Graph → List Text → List Text → Type 0
IsSorted g seen [] = Unit
IsSorted g seen (v ∷ vs) = IsReady g seen v × IsSorted g (seen ++ v ∷ []) vs

pub IsSorted-snoc :
    (g : Graph) (seen vs : List Text) (v : Text)
    → IsSorted g seen vs
    → IsReady g (seen ++ vs) v
    → IsSorted g seen (vs ++ v ∷ [])
IsSorted-snoc g seen [] v h r = (rw (← append-nil seen) r, tt)
IsSorted-snoc g seen (w ∷ vs) v (q, h) r =
    (q, IsSorted-snoc g (seen ++ w ∷ []) vs v h (rw (append_assoc seen (w ∷ []) vs) r))

-- What holds whenever the loop tests its queue.
pub record IsVisiting (g : Graph) (ds : Degrees) (queue sorted : List Text) : Type 0 where
  pub frontier :
      IsFrontier
        (record { degrees = ds; queue = queue })
        sorted
        (λ v. mentioned g (keys g) v)
        (λ v. incoming g sorted v (keys g))
  pub order : IsSorted g [] sorted

pub IsVisiting-first :
    (g : Graph) → IsVisiting g (first_frontier g).degrees (first_frontier g).queue []
IsVisiting-first g = record { frontier = first_frontier-IsFrontier g; order = tt }

module _ (g : Graph) (keys_distinct : IsDistinct (keys g)) where
  pub mentioned-edge :
      (us : List Text) (u v : Text)
      → includes us u ≡ true
      → includes (edges g u) v ≡ true
      → mentioned g us v ≡ true
  mentioned-edge [] u v there edge = cc
  mentioned-edge (w ∷ us) u v there edge = ground (arith, mentioned-edge us u v, ===_iff w u)

  pub mentioned_key : (us : List Text) (u : Text) → includes us u ≡ true → mentioned g us u ≡ true
  mentioned_key [] u there = cc
  mentioned_key (w ∷ us) u there = ground (arith, mentioned_key us u)

  pub edge-key : (u v : Text) → includes (edges g u) v ≡ true → includes (keys g) u ≡ true
  edge-key u v edge = ground (arith, edges_absent g u)

  module _ (ds : Degrees) (v : Text) (queue sorted : List Text)
      (inv : IsVisiting g ds (v ∷ queue) sorted) where
    ready : IsReady g sorted v
    ready u edge =
        incoming_zero g sorted u v (keys g) (edge-key u v edge) edge
          (ground (arith, inv.frontier.listed v, includes-append sorted (v ∷ queue) v, ===_iff v v))

    shifted :
        IsFrontier
          (record { degrees = ds; queue = queue })
          (sorted ++ v ∷ [])
          (λ w. mentioned g (keys g) w)
          (λ w. incoming g sorted w (keys g))
    shifted = record {
      known = inv.frontier.known;
      degree = inv.frontier.degree;
      listed = rw (append_assoc sorted (v ∷ []) queue) inv.frontier.listed;
      distinct = rw (append_assoc sorted (v ∷ []) queue) inv.frontier.distinct;
    }

    visit-IsVisiting :
        let f = visit g ds v queue in IsVisiting g f.degrees f.queue (sorted ++ v ∷ [])
    unfolding visit
    visit-IsVisiting = record {
      frontier =
          lower_all-IsFrontier (record { degrees = ds; queue = queue }) (sorted ++ v ∷ [])
            (λ w. mentioned g (keys g) w) (λ w. incoming g sorted w (keys g))
            (λ w. incoming g (sorted ++ v ∷ []) w (keys g)) (edges g v)
            (λ w edge. mentioned-edge (keys g) v w (edge-key v w edge) edge)
            (λ w.
              incoming-visit g sorted v w keys_distinct
                (IsDistinct-middle sorted v queue inv.frontier.distinct))
            shifted;
      order = IsSorted-snoc g [] sorted v inv.order ready;
    }

  -- What is listed are different vertices, so there is room for one more while the queue holds one.
  room :
      (ds : Degrees) (queue sorted : List Text)
      → IsVisiting g ds queue sorted
      → length sorted + length queue ≤ length (indegrees g)
  room ds queue sorted inv =
      let fits = length-subset (sorted ++ queue) (keys (indegrees g)) inv.frontier.distinct (λ w h.
        ground (arith, inv.frontier.listed w, has-indegrees g w, has-keys (indegrees g) w)) in
      omega (arith, fits, length-append sorted queue, length-map (λ e. e.0) (indegrees g))

  -- Fuel for each vertex that is not visited yet lets both loops run to the end, on the same
  -- vertices.
  pub loop_ends :
      (fuel : ℕ) (ds : Degrees) (queue sorted : List Text)
      → length (indegrees g) ≤ fuel + length sorted
      → IsVisiting g ds queue sorted
      → (all : List Text) × (ds' : Degrees) × IsVisiting g ds' [] all
        × (kahn g fuel ds queue sorted ≡ some all)
        × (count_visits g fuel ds queue (length sorted) ≡ some (length all))
  unfolding kahn count_visits
  loop_ends zero ds [] sorted h inv = (sorted, ds, inv, refl, refl)
  loop_ends (suc fuel) ds [] sorted h inv = (sorted, ds, inv, refl, refl)
  loop_ends zero ds (v ∷ queue) sorted h inv =
      absurd (omega (arith, room ds (v ∷ queue) sorted inv))
  loop_ends (suc fuel) ds (v ∷ queue) sorted h inv =
      let f = visit g ds v queue in
      let longer = length-append sorted (v ∷ []) in
      let (all, ds', end, k, c) =
        loop_ends fuel f.degrees f.queue (sorted ++ v ∷ []) (omega (arith, longer))
          (visit-IsVisiting ds v queue sorted inv) in
      (all, ds', end, k, rw (longer) at c)
