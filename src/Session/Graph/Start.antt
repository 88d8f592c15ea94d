-- ===== src/Session/Graph/Start.antt =====
-- orchestration/dependencyGraph.js: the degrees and the queue before the loop.
use universal_data_onboarder.Base.{
  ◌≡◌, refl, ℕ, ◌+◌, Bool, false, ◌||◌, List, [], ◌∷◌, Option, none, some, Text, includes, ◌===◌,
  ===_iff, arith, inl, inr, Bool-cases, ℤ, pos,
}
use universal_data_onboarder.Base.Dict.{get, has, keys, get-put}
use universal_data_onboarder.Base.Distinct.{IsDistinct, IsDistinct-put, has-keys}
use universal_data_onboarder.Session.Graph.{
  increment, is_zero, Graph, Degrees, edges, ensure, raise, count_targets, count_edges, indegrees,
  sources, first_frontier, or_else,
}
use universal_data_onboarder.Session.Graph.Degrees.{times, incoming, one_if, IsFrontier}

-- `need`, with 0 for a vertex that has no entry yet.
abbrev Counts : Degrees → (Text → ℕ) → Type 0
Counts ds need = (v : Text) → or_else (pos 0) (get ds v) ≡ pos (need v)

ensure-Counts :
    (ds : Degrees) (need : Text → ℕ) (t : Text) → Counts ds need → Counts (ensure ds t) need
unfolding ensure
ensure-Counts ds need t h v = ground (arith, get-put ds t v (pos 0), h v, h t, ===_iff t v)

raise-Counts :
    (ds : Degrees) (need : Text → ℕ) (t : Text)
    → Counts ds need
    → Counts (raise ds t) (λ v. one_if (t === v) + need v)
unfolding raise
raise-Counts ds need t h v =
    ground (arith, get-put ds t v (increment (or_else (pos 0) (get ds t))), h v, h t, ===_iff t v)

count_targets-Counts :
    (ds : Degrees) (need need' : Text → ℕ) (ts : List Text)
    → Counts ds need
    → ((v : Text) → need' v ≡ times v ts + need v)
    → Counts (count_targets ds ts) need'
unfolding count_targets
count_targets-Counts ds need need' [] h more = λ v. ground (arith, h v, more v)
count_targets-Counts ds need need' (t ∷ ts) h more =
    count_targets-Counts (raise (ensure ds t) t) (λ v. one_if (t === v) + need v) need' ts
      (raise-Counts (ensure ds t) need t (ensure-Counts ds need t h)) (λ v. ground (arith, more v))

count_edges-Counts :
    (g : Graph) (ds : Degrees) (need need' : Text → ℕ) (vs : List Text)
    → Counts ds need
    → ((v : Text) → need' v ≡ incoming g [] v vs + need v)
    → Counts (count_edges g ds vs) need'
unfolding count_edges
count_edges-Counts g ds need need' [] h more = λ v. ground (arith, h v, more v)
count_edges-Counts g ds need need' (u ∷ us) h more =
    count_edges-Counts g (count_targets (ensure ds u) (edges g u))
      (λ v. times v (edges g u) + need v) need' us
      (count_targets-Counts (ensure ds u) need (λ v. times v (edges g u) + need v) (edges g u)
        (ensure-Counts ds need u h) (λ v. refl))
      (λ v. omega (arith, more v))

-- `v` is one of `us` or has an edge from one.
abbrev pub mentioned : Graph → List Text → Text → Bool
mentioned g [] v = false
mentioned g (u ∷ us) v = u === v || includes (edges g u) v || mentioned g us v

has-ensure : (ds : Degrees) (t v : Text) → has (ensure ds t) v ≡ t === v || has ds v
unfolding ensure
has-ensure ds t v = ground (arith, get-put ds t v (pos 0), ===_iff t v)

has-raise : (ds : Degrees) (t v : Text) → has (raise ds t) v ≡ t === v || has ds v
unfolding raise
has-raise ds t v =
    ground (arith, get-put ds t v (increment (or_else (pos 0) (get ds t))), ===_iff t v)

has-count_targets :
    (ds : Degrees) (ts : List Text) (v : Text)
    → has (count_targets ds ts) v ≡ includes ts v || has ds v
unfolding count_targets
has-count_targets ds [] v = refl
has-count_targets ds (t ∷ ts) v = ground (
  arith,
  has-count_targets (raise (ensure ds t) t) ts v,
  has-raise (ensure ds t) t v,
  has-ensure ds t v,
)

has-count_edges :
    (g : Graph) (ds : Degrees) (us : List Text) (v : Text)
    → has (count_edges g ds us) v ≡ mentioned g us v || has ds v
unfolding count_edges
has-count_edges g ds [] v = refl
has-count_edges g ds (u ∷ us) v = ground (
  arith,
  has-count_edges g (count_targets (ensure ds u) (edges g u)) us v,
  has-count_targets (ensure ds u) (edges g u) v,
  has-ensure ds u v,
)

pub has-indegrees : (g : Graph) (v : Text) → has (indegrees g) v ≡ mentioned g (keys g) v
unfolding indegrees get
has-indegrees g v = ground (arith, has-count_edges g [] (keys g) v)

ensure-IsDistinct :
    (ds : Degrees) (t : Text) → IsDistinct (keys ds) → IsDistinct (keys (ensure ds t))
unfolding ensure
ensure-IsDistinct ds t d = elim (Bool-cases (has ds t)) [
  | inl there ↦ rw there d
  | inr new ↦ rw new (IsDistinct-put ds t (pos 0) d)
]

count_targets-IsDistinct :
    (ds : Degrees) (ts : List Text) → IsDistinct (keys ds) → IsDistinct (keys (count_targets ds ts))
unfolding count_targets raise
count_targets-IsDistinct ds [] d = d
count_targets-IsDistinct ds (t ∷ ts) d = count_targets-IsDistinct (raise (ensure ds t) t) ts (
    IsDistinct-put (ensure ds t) t (increment (or_else (pos 0) (get (ensure ds t) t)))
      (ensure-IsDistinct ds t d))

count_edges-IsDistinct :
    (g : Graph) (ds : Degrees) (us : List Text)
    → IsDistinct (keys ds)
    → IsDistinct (keys (count_edges g ds us))
unfolding count_edges
count_edges-IsDistinct g ds [] d = d
count_edges-IsDistinct g ds (u ∷ us) d =
    count_edges-IsDistinct g (count_targets (ensure ds u) (edges g u)) us
      (count_targets-IsDistinct (ensure ds u) (edges g u) (ensure-IsDistinct ds u d))

pub indegrees-IsDistinct : (g : Graph) → IsDistinct (keys (indegrees g))
unfolding indegrees
indegrees-IsDistinct g = count_edges-IsDistinct g [] (keys g) tt

abbrev zero_at : Option ℤ → Bool
zero_at none = false
zero_at (some d) = is_zero d

includes-sources :
    (ds : Degrees) (v : Text) → IsDistinct (keys ds) → includes (sources ds) v ≡ zero_at (get ds v)
unfolding sources get
includes-sources [] v d = refl
includes-sources ((u, n) ∷ ds) v (new, d) =
    ground (arith, includes-sources ds v d, has-keys ds u, ===_iff u v)

sources-IsDistinct : (ds : Degrees) → IsDistinct (keys ds) → IsDistinct (sources ds)
unfolding sources
sources-IsDistinct [] d = tt
sources-IsDistinct ((u, n) ∷ ds) (new, d) = elim (Bool-cases (is_zero n)) [
  | inl z ↦ rw z (ground (arith, includes-sources ds u d, has-keys ds u), sources-IsDistinct ds d)
  | inr z ↦ rw z (sources-IsDistinct ds d)
]

indegrees-Counts : (g : Graph) → Counts (indegrees g) (λ v. incoming g [] v (keys g))
unfolding indegrees get
indegrees-Counts g =
    count_edges-Counts g [] (λ v. 0) (λ v. incoming g [] v (keys g)) (keys g) (λ v. refl)
      (λ v. omega arith)

pub first_frontier-IsFrontier :
    (g : Graph)
    → IsFrontier (first_frontier g) [] (λ v. mentioned g (keys g) v) (λ v. incoming g [] v (keys g))
unfolding first_frontier
first_frontier-IsFrontier g = record {
  known = has-indegrees g;
  degree = λ v h. ground (arith, indegrees-Counts g v);
  listed = λ v. ground (
    arith,
    includes-sources (indegrees g) v (indegrees-IsDistinct g),
    indegrees-Counts g v,
    has-indegrees g v,
  );
  distinct = sources-IsDistinct (indegrees g) (indegrees-IsDistinct g);
}
