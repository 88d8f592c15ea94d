-- ===== src/Session/Graph/Degrees.antt =====
-- orchestration/dependencyGraph.js: what `indegree` holds before and in the loop.
use universal_data_onboarder.Base.{
  ◌≡◌, refl, ℕ, zero, suc, ◌+◌, Bool, true, false, ◌&&◌, ◌==◌, List, [], ◌∷◌, ◌++◌, some, Text,
  includes, ◌===◌, ===_iff, if◌then◌else◌, arith, count, append_assoc, pos,
}
use universal_data_onboarder.Base.Dict.{get, put, has, get-put}
use universal_data_onboarder.Base.Distinct.{IsDistinct, IsDistinct-snoc, includes-append}
use universal_data_onboarder.Session.Graph.{
  is_zero, Graph, Degrees, edges, Frontier, lower_degree, lower_all,
}

-- How often `v` is in `ts`.
abbrev pub times : Text → List Text → ℕ
times v ts = count (λ t. t === v) ts

-- The edges to `v` from those of `vs` that are not in `gone`.
abbrev pub incoming : Graph → List Text → Text → List Text → ℕ
incoming g gone v [] = 0
incoming g gone v (u ∷ us) =
    let rest = incoming g gone v us in if includes gone u then rest else times v (edges g u) + rest

-- The degrees are those of `need`, for the vertices that are there.
abbrev pub Tracks : Degrees → (Text → ℕ) → Type 0
Tracks ds need = (v : Text) → has ds v ≡ true → get ds v ≡ some (pos (need v))

-- What holds of a frontier when the vertices of `seen` were shifted off the queue.
pub record IsFrontier (f : Frontier) (seen : List Text) (vertices : Text → Bool) (need : Text → ℕ)
    : Type 0 where
  pub known : (v : Text) → has f.degrees v ≡ vertices v
  pub degree : Tracks f.degrees need
  pub listed : (v : Text) → includes (seen ++ f.queue) v ≡ (vertices v && need v == 0)
  pub distinct : IsDistinct (seen ++ f.queue)

abbrev pub one_if : Bool → ℕ
one_if true = 1
one_if false = 0

-- What `lower_degree` makes of a degree that is one more than `n`.
abbrev lowered : Frontier → Text → ℕ → Frontier
lowered f t n = record {
  degrees = put f.degrees t (pos n);
  queue = if is_zero (pos n) then f.queue ++ t ∷ [] else f.queue;
}

lower_degree-lowered :
    (f : Frontier) (t : Text) (n : ℕ)
    → get f.degrees t ≡ some (pos (suc n))
    → lower_degree f t ≡ lowered f t n
unfolding lower_degree
lower_degree-lowered f t zero at = rw at refl
lower_degree-lowered f t (suc n) at = rw at refl

IsDistinct_pushed :
    (b : Bool) (xs ys : List Text) (t : Text)
    → IsDistinct (xs ++ ys)
    → includes (xs ++ ys) t ≡ false
    → IsDistinct (xs ++ (if b then ys ++ t ∷ [] else ys))
IsDistinct_pushed true xs ys t d new =
    rw (← append_assoc xs ys (t ∷ [])) (IsDistinct-snoc (xs ++ ys) t d new)
IsDistinct_pushed false xs ys t d new = d

module _ (f : Frontier) (seen : List Text) (vertices : Text → Bool) (need need' : Text → ℕ)
    (t : Text) (there : vertices t ≡ true)
    (falls : (v : Text) → need v ≡ one_if (t === v) + need' v)
    (inv : IsFrontier f seen vertices need) where
  lowered-IsFrontier : IsFrontier (lowered f t (need' t)) seen vertices need'
  lowered-IsFrontier = record {
    known = λ v. ground (arith, get-put f.degrees t v (pos (need' t)), inv.known v, ===_iff t v);
    degree = λ v h.
        ground (arith, get-put f.degrees t v (pos (need' t)), inv.degree v, falls v, ===_iff t v);
    listed = λ v. ground (
      arith,
      includes-append seen (f.queue ++ t ∷ []) v,
      includes-append f.queue (t ∷ []) v,
      includes-append seen f.queue v,
      inv.listed v,
      falls v,
      ===_iff t v,
    );
    distinct =
        IsDistinct_pushed (is_zero (pos (need' t))) seen f.queue t inv.distinct
          (ground (arith, inv.listed t, falls t, ===_iff t t));
  }

  lower_degree-IsFrontier : IsFrontier (lower_degree f t) seen vertices need'
  lower_degree-IsFrontier =
      rw
        (lower_degree-lowered f t (need' t)
          (ground (arith, inv.degree t, inv.known t, falls t, ===_iff t t)))
        lowered-IsFrontier

pub IsFrontier-same :
    (f : Frontier) (seen : List Text) (vertices : Text → Bool) (need need' : Text → ℕ)
    → ((v : Text) → need v ≡ need' v)
    → IsFrontier f seen vertices need
    → IsFrontier f seen vertices need'
IsFrontier-same f seen vertices need need' same inv = record {
  known = inv.known;
  degree = λ v h. ground (arith, inv.degree v h, same v);
  listed = λ v. ground (arith, inv.listed v, same v);
  distinct = inv.distinct;
}

pub lower_all-IsFrontier :
    (f : Frontier) (seen : List Text) (vertices : Text → Bool) (need need' : Text → ℕ)
    → (ts : List Text) → ((v : Text) → includes ts v ≡ true → vertices v ≡ true)
    → ((v : Text) → need v ≡ times v ts + need' v)
    → IsFrontier f seen vertices need
    → IsFrontier (lower_all f ts) seen vertices need'
unfolding lower_all
lower_all-IsFrontier f seen vertices need need' [] known falls inv =
    IsFrontier-same f seen vertices need need' (λ v. omega (arith, falls v)) inv
lower_all-IsFrontier f seen vertices need need' (t ∷ ts) known falls inv =
    lower_all-IsFrontier (lower_degree f t) seen vertices (λ v. times v ts + need' v) need' ts
      (λ v h. known v (ground arith)) (λ v. refl)
      (lower_degree-IsFrontier f seen vertices need (λ v. times v ts + need' v) t
        (known t (ground (arith, ===_iff t t))) (λ v. ground (arith, falls v)) inv)
