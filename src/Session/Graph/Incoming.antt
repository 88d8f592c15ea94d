-- ===== src/Session/Graph/Incoming.antt =====
-- orchestration/dependencyGraph.js: the edges to a vertex that are left, and a visit.
use universal_data_onboarder.Base.{
  ◌≡◌, ◌≢◌, refl, ap, ◌+◌, true, false, List, [], ◌∷◌, ◌++◌, Text, includes, ◌===◌, ===_iff, arith,
  inl, inr, Bool-cases,
}
use universal_data_onboarder.Base.Dict.{keys}
use universal_data_onboarder.Base.Distinct.{IsDistinct, includes-append, has-keys}
use universal_data_onboarder.Session.Graph.{Graph, edges}
use universal_data_onboarder.Session.Graph.Degrees.{times, incoming}

pub incoming-absent :
    (g : Graph) (gone : List Text) (u v : Text) (us : List Text)
    → includes us u ≡ false
    → incoming g (gone ++ u ∷ []) v us ≡ incoming g gone v us
incoming-absent g gone u v [] new = refl
incoming-absent g gone u v (w ∷ us) new = ground (
  arith,
  incoming-absent g gone u v us,
  includes-append gone (u ∷ []) w,
  ===_iff w u,
  ===_iff u w,
)

pub incoming-visited :
    (g : Graph) (gone : List Text) (u v : Text) (us : List Text)
    → IsDistinct us
    → includes us u ≡ true
    → includes gone u ≡ false
    → incoming g gone v us ≡ times v (edges g u) + incoming g (gone ++ u ∷ []) v us
incoming-visited g gone u v [] d there new = cc
incoming-visited g gone u v (w ∷ us) (n, d) there new = elim (Bool-cases (w === u)) [
  | inl same ↦
      let e : w ≡ u = (===_iff w u).0 same in
      let rest = incoming-absent g gone u v us (rw e at n) in
      ground
        (arith, includes-append gone (u ∷ []) w, ===_iff u u, ap (edges g) e, ap (includes gone) e)
  | inr other ↦ ground (
    arith,
    incoming-visited g gone u v us d,
    includes-append gone (u ∷ []) w,
    ===_iff w u,
    ===_iff u w,
  )
]

pub edges_absent : (g : Graph) (u : Text) → includes (keys g) u ≡ false → edges g u ≡ []
unfolding edges
edges_absent g u absent = ground (arith, has-keys g u)

-- A vertex that is in no list of `g` has no edges.
pub incoming-visit :
    (g : Graph) (gone : List Text) (u v : Text)
    → IsDistinct (keys g)
    → includes gone u ≡ false
    → incoming g gone v (keys g) ≡ times v (edges g u) + incoming g (gone ++ u ∷ []) v (keys g)
incoming-visit g gone u v d new = elim (Bool-cases (includes (keys g) u)) [
  | inl there ↦ incoming-visited g gone u v (keys g) d there new
  | inr absent ↦
      rw (edges_absent g u absent) (omega (arith, incoming-absent g gone u v (keys g) absent))
]

pub times-includes : (v : Text) (ts : List Text) → includes ts v ≡ true → times v ts ≢ 0
times-includes v [] there z = cc
times-includes v (t ∷ ts) there z = ground (arith, times-includes v ts)

pub incoming_zero :
    (g : Graph) (gone : List Text) (u v : Text) (us : List Text)
    → includes us u ≡ true
    → includes (edges g u) v ≡ true
    → incoming g gone v us ≡ 0
    → includes gone u ≡ true
incoming_zero g gone u v [] there edge z = cc
incoming_zero g gone u v (w ∷ us) there edge z = elim (Bool-cases (includes gone w)) [
  | inl in_gone ↦ ground (arith, incoming_zero g gone u v us, ===_iff w u)
  | inr left ↦
      ground (arith, incoming_zero g gone u v us, ===_iff w u, times-includes v (edges g w))
]
