-- ===== src/Session/Order/Laws.antt =====
-- orchestration/dependencyGraph.js: every job of a session once, after the jobs it depends on.
use universal_data_onboarder.Base.{
  ◌≡◌, refl, ap, Bool, true, ◌&&◌, ◌||◌, List, [], ◌∷◌, ◌++◌, some, Text, includes, ◌===◌, ===_iff,
  filter, if◌then◌else◌, arith, inl, inr, Bool-cases, any, append_assoc, append-nil, add_new,
}
use universal_data_onboarder.Base.Dict.{Dict, get, put, has, get-put}
use universal_data_onboarder.Base.Distinct.{IsDistinct, includes-append, IsDistinct-snoc}
use universal_data_onboarder.Session.Graph.{edges, add_vertex}
use universal_data_onboarder.Session.Graph.Build.{
  requires, named, includes-add_new, edges-add_vertex,
}
use universal_data_onboarder.Session.Order.{
  SessionJob, entities_from, declared, local_dependencies, group_jobs, Execution, add_job, add_jobs,
  add_rest,
}

-- A job of `js` is of the entity `e`, and has the id `id`.
abbrev pub has_entity : List SessionJob → Text → Bool
has_entity js e = any (λ j. j.entity_key === e) js

abbrev pub has_id : List SessionJob → Text → Bool
has_id js id = any (λ j. j.import_job_id === id) js

abbrev pub has_job : List SessionJob → Text → Text → Bool
has_job js e id = any (λ j. j.entity_key === e && j.import_job_id === id) js

pub includes-entities_from :
    (es : List Text) (js : List SessionJob) (e : Text)
    → includes (entities_from es js) e ≡ includes es e || has_entity js e
unfolding entities_from
includes-entities_from es [] e = ground arith
includes-entities_from es (j ∷ js) e = ground (
  arith,
  includes-entities_from (add_new es j.entity_key) js e,
  includes-add_new es j.entity_key e,
)

pub get-local_dependencies :
    (deps : Dict (List Text)) (present : List Text) (acc : Dict (List Text)) (es : List Text)
    (e : Text)
    → get (local_dependencies deps present acc es) e ≡ (
        if includes es e
        then some (filter (λ d. includes present d) (declared deps e))
        else get acc e)
unfolding local_dependencies
get-local_dependencies deps present acc [] e = refl
get-local_dependencies deps present acc (f ∷ es) e =
    let kept = filter (λ d. includes present d) (declared deps f) in
    ground (
      arith,
      get-local_dependencies deps present (put acc f kept) es e,
      get-put acc f e kept,
      ===_iff f e,
    )

pub requires-get :
    (d : Dict (List Text)) (v u : Text) (us : List Text)
    → get d v ≡ some us
    → includes us u ≡ true
    → requires d v u ≡ true
unfolding get
requires-get [] v u us found there = cc
requires-get ((e, deps) ∷ d) v u us found there = ground (arith, requires-get d v u us)

pub named-get : (d : Dict (List Text)) (v : Text) → has d v ≡ true → named d v ≡ true
unfolding get
named-get [] v found = cc
named-get ((e, deps) ∷ d) v found = ground (arith, named-get d v)

pub includes-filter :
    (p : Text → Bool) (xs : List Text) (v : Text) → includes (filter p xs) v ≡ includes xs v && p v
includes-filter p [] v = refl
includes-filter p (x ∷ xs) v = ground (arith, includes-filter p xs v, ===_iff x v)

edges-put :
    (m : Dict (List Text)) (k : Text) (ids : List Text) (e : Text)
    → edges (put m k ids) e ≡ (if k === e then ids else edges m e)
unfolding edges
edges-put m k ids e = ground (arith, get-put m k e ids, ===_iff k e)

pub includes-edges-group_jobs :
    (m : Dict (List Text)) (js : List SessionJob) (e id : Text)
    → includes (edges (group_jobs m js) e) id ≡ includes (edges m e) id || has_job js e id
unfolding group_jobs
includes-edges-group_jobs m [] e id = ground arith
includes-edges-group_jobs m (j ∷ js) e id =
    let m' = add_vertex m j.entity_key in
    let ids = edges m' j.entity_key ++ j.import_job_id ∷ [] in
    ground (
      arith,
      includes-edges-group_jobs (put m' j.entity_key ids) js e id,
      edges-put m' j.entity_key ids e,
      edges-add_vertex m j.entity_key e,
      includes-append (edges m' j.entity_key) (j.import_job_id ∷ []) id,
      ===_iff j.entity_key e,
    )

module _ (deps : Dict (List Text)) (jobs : List SessionJob) where
  -- Every job that the entity `k` depends on is in `seen`.
  abbrev pub IsDue : List Text → Text → Type 0
  IsDue seen k =
      (e id : Text)
      → includes (declared deps k) e ≡ true
      → has_job jobs e id ≡ true
      → includes seen id ≡ true

  -- The two lists name jobs, each after those it depends on; `seen` is what stands before.
  abbrev pub IsScheduled : List Text → List Text → List Text → Type 0
  IsScheduled seen [] [] = Unit
  IsScheduled seen (id ∷ ids) (k ∷ ks) =
      (has_job jobs k id ≡ true) × IsDue seen k × IsScheduled (seen ++ id ∷ []) ids ks
  IsScheduled seen _ _ = ⊥

  IsScheduled-snoc :
      (seen ids ks : List Text) (id k : Text)
      → IsScheduled seen ids ks
      → has_job jobs k id ≡ true
      → IsDue (seen ++ ids) k
      → IsScheduled seen (ids ++ id ∷ []) (ks ++ k ∷ [])
  IsScheduled-snoc seen [] [] id k h there due = (there, rw (← append-nil seen) due, tt)
  IsScheduled-snoc seen (i ∷ ids) (l ∷ ks) id k (t, q, h) there due = (
    t,
    q,
    IsScheduled-snoc (seen ++ i ∷ []) ids ks id k h there (rw (append_assoc seen (i ∷ []) ids) due),
  )
  IsScheduled-snoc seen [] (l ∷ ks) id k h there due = absurd h
  IsScheduled-snoc seen (i ∷ ids) [] id k h there due = absurd h

  -- What holds of the lists at any time.
  pub record IsPartial (x : Execution) : Type 0 where
    pub distinct : IsDistinct x.ordered_ids
    pub same : x.added ≡ x.ordered_ids
    pub scheduled : IsScheduled [] x.ordered_ids x.ordered_entity_keys

  add_job-IsPartial :
      (k : Text) (x : Execution) (id : Text)
      → has_job jobs k id ≡ true
      → IsDue x.ordered_ids k
      → IsPartial x
      → IsPartial (add_job k x id)
  unfolding add_job add_new
  add_job-IsPartial k x id there due inv = elim (Bool-cases (includes x.added id)) [
    | inl known ↦ rw known inv
    | inr new ↦ rw new (record {
      distinct = IsDistinct-snoc x.ordered_ids id inv.distinct (rw inv.same at new);
      same = ap (λ ids. ids ++ id ∷ []) inv.same;
      scheduled =
          IsScheduled-snoc [] x.ordered_ids x.ordered_entity_keys id k inv.scheduled there due;
    })
  ]

  includes-add_job :
      (k : Text) (x : Execution) (id v : Text)
      → includes (add_job k x id).added v ≡ includes x.added v || id === v
  unfolding add_job add_new
  includes-add_job k x id v = ground (arith, includes-append x.added (id ∷ []) v, ===_iff id v)

  grown :
      (k : Text) (x : Execution) (id v : Text)
      → IsPartial x
      → IsPartial (add_job k x id)
      → includes x.ordered_ids v ≡ true
      → includes (add_job k x id).ordered_ids v ≡ true
  grown k x id v inv inv' there = ground (
    arith,
    includes-add_job k x id v,
    ap (λ xs. includes xs v) inv.same,
    ap (λ xs. includes xs v) inv'.same,
  )

  pub add_jobs-IsPartial :
      (k : Text) (x : Execution) (ids : List Text)
      → ((id : Text) → includes ids id ≡ true → (has_job jobs k id ≡ true) × IsDue x.ordered_ids k)
      → IsPartial x
      → IsPartial (add_jobs k x ids)
        × ((v : Text) → includes (add_jobs k x ids).added v ≡ includes x.added v || includes ids v)
  unfolding add_jobs
  add_jobs-IsPartial k x [] group inv = (inv, λ v. ground arith)
  add_jobs-IsPartial k x (id ∷ ids) group inv =
      let (there, due) = group id (ground (arith, ===_iff id id)) in
      let inv' = add_job-IsPartial k x id there due inv in
      let (end, more) =
        add_jobs-IsPartial k (add_job k x id) ids
          (λ w h. ((group w (ground arith)).0, λ e v d j. grown k x id v inv inv' (due e v d j)))
          inv' in
      (end, λ v. ground (arith, more v, includes-add_job k x id v))

  pub add_rest_done :
      (x : Execution) (js : List SessionJob)
      → ((id : Text) → has_id js id ≡ true → includes x.added id ≡ true)
      → add_rest x js ≡ x
  unfolding add_rest add_job
  add_rest_done x [] known = refl
  add_rest_done x (j ∷ js) known =
      rw (known j.import_job_id (ground (arith, ===_iff j.import_job_id j.import_job_id)))
        (add_rest_done x js (λ id h. known id (ground arith)))
