-- ===== src/Mapping/Suggest/Claims.antt =====
-- core/mapping/applyMapping.js: each target field is claimed at most once.
use mathlib.Core.Path.{ap₂}
use universal_data_onboarder.Base.{
  ℕ, ◌≡◌, refl, Bool, true, false, List, [], ◌∷◌, map, Option, none, some, Text, ◌===◌, ===_iff,
  includes, arith, Bool-cases, inl, inr, All, All-map, if◌then◌else◌, ap,
}
use universal_data_onboarder.Registry.{FieldSpec}
use universal_data_onboarder.Mapping.Suggest.{
  Candidate, candidate, find_free, Best, nearer, over_forms, over_candidates, accept_best,
  Suggestion, third_tier, second_tier, first_tier, suggest_one, claim, suggest_from,
  suggest_mapping, is_exact, is_contained, normalize,
}
use universal_data_onboarder.Mapping.Distance.{levenshtein}

-- No text stands twice in the list.
abbrev pub Distinct : List Text → Type 0
Distinct [] = Unit
Distinct (x ∷ xs) = (includes xs x ≡ false) × Distinct xs

-- The target fields that the suggestions name, in their order.
abbrev pub cons_some : Option Text → List Text → List Text
cons_some none ks = ks
cons_some (some k) ks = k ∷ ks

abbrev pub claimed : List Suggestion → List Text
claimed [] = []
claimed (s ∷ ss) = cons_some s.target_field_key (claimed ss)

abbrev Holds : (Text → Type 0) → Option Text → Type 0
Holds P none = Unit
Holds P (some k) = P k

Holds-if :
    (P : Text → Type 0) (b : Bool) (o : Option Text) → Holds P o → Holds P (if b then o else none)
Holds-if P true o h = h
Holds-if P false o h = tt

module _ (all : List Candidate) (used : List Text) where
  -- A key of a candidate that is not used.
  abbrev Free : Text → Type 0
  Free k = (includes used k ≡ false) × (includes (map (λ c. c.key) all) k ≡ true)

  abbrev Known : List Candidate → Type 0
  Known = All (λ (c : Candidate). includes (map (λ d. d.key) all) c.key ≡ true)

  find_free-Free :
      (test : Candidate → Bool) (cs : List Candidate)
      → Known cs
      → Holds Free (find_free used test cs)
  unfolding find_free
  find_free-Free test [] known = tt
  find_free-Free test (c ∷ cs) (k, known) = elim (Bool-cases (includes used c.key)) [
    | inl e ↦ rw e (find_free-Free test cs known)
    | inr e ↦ elim (Bool-cases (test c)) [
      | inl t ↦ rw (e, t) (e, k)
      | inr t ↦ rw (e, t) (find_free-Free test cs known)
    ]
  ]

  abbrev BestFree : Best → Type 0
  BestFree none = Unit
  BestFree (some b) = Free b.0

  nearer-BestFree :
      (key : Text) (d : ℕ) (b : Best) → Free key → BestFree b → BestFree (nearer key d b)
  unfolding nearer
  nearer-BestFree key d none f h = f
  nearer-BestFree key d (some (old, least)) f h = ground arith

  over_forms-BestFree :
      (source key : Text) (fs : List Text) (b : Best)
      → Free key
      → BestFree b
      → BestFree (over_forms source key fs b)
  unfolding over_forms
  over_forms-BestFree source key [] b f h = h
  over_forms-BestFree source key (g ∷ fs) b f h =
      over_forms-BestFree source key fs (nearer key (levenshtein source g) b) f
        (nearer-BestFree key (levenshtein source g) b f h)

  over_candidates-BestFree :
      (source : Text) (cs : List Candidate) (b : Best)
      → Known cs
      → BestFree b
      → BestFree (over_candidates used source cs b)
  unfolding over_candidates
  over_candidates-BestFree source [] b known h = h
  over_candidates-BestFree source (c ∷ cs) b (k, known) h =
      elim (Bool-cases (includes used c.key)) [
        | inl e ↦ rw e (over_candidates-BestFree source cs b known h)
        | inr e ↦ rw e (
            over_candidates-BestFree source cs (over_forms source c.key c.forms b) known
              (over_forms-BestFree source c.key c.forms b (e, k) h))
      ]

  accept_best-Free : (source : Text) (b : Best) → BestFree b → Holds Free (accept_best source b)
  unfolding accept_best
  accept_best-Free source none h = tt
  accept_best-Free source (some (key, d)) h = Holds-if Free _ (some key) h

  third_tier-Free :
      (column source : Text) (o : Option Text)
      → Holds Free o
      → Holds Free (third_tier all used column source o).target_field_key
  unfolding third_tier
  third_tier-Free column source none h = tt
  third_tier-Free column source (some k) h = h

  second_tier-Free :
      (column source : Text) (o : Option Text)
      → Known all
      → Holds Free o
      → Holds Free (second_tier all used column source o).target_field_key
  unfolding second_tier
  second_tier-Free column source none known h =
      third_tier-Free column source _
        (accept_best-Free source _ (over_candidates-BestFree source all none known tt))
  second_tier-Free column source (some k) known h = h

  first_tier-Free :
      (column source : Text) (o : Option Text)
      → Known all
      → Holds Free o
      → Holds Free (first_tier all used column source o).target_field_key
  unfolding first_tier
  first_tier-Free column source none known h =
      second_tier-Free column source _ known (find_free-Free (is_contained source) all known)
  first_tier-Free column source (some k) known h = h

  suggest_one-Free :
      (column source : Text)
      → Known all
      → Holds Free (suggest_one all used column source).target_field_key
  unfolding suggest_one
  suggest_one-Free column [] known = tt
  suggest_one-Free column (c ∷ source) known =
      first_tier-Free column (c ∷ source) _ known (find_free-Free (is_exact (c ∷ source)) all known)

not_includes : (k : Text) (js : List Text) → All (λ j. (k === j) ≡ false) js → includes js k ≡ false
not_includes k [] h = refl
not_includes k (j ∷ js) (e, h) = ground (arith, not_includes k js h, ===_iff k j, ===_iff j k)

-- What is free once `k` is claimed was free before, and is not `k`.
Free-claimed :
    (all : List Candidate) (used : List Text) (k j : Text)
    → Free all (k ∷ used) j
    → Free all used j × ((k === j) ≡ false)
Free-claimed all used k j (e, known) = ground arith

claim_sound :
    (all : List Candidate) (used : List Text) (o : Option Text) (rest : List Text)
    → Holds (Free all used) o
    → All (Free all (claim used o)) rest
    → Distinct rest
    → All (Free all used) (cons_some o rest) × Distinct (cons_some o rest)
unfolding claim
claim_sound all used none rest h free d = (free, d)
claim_sound all used (some k) rest h free d =
    let before = All-map _ _ (λ j f. (Free-claimed all used k j f).0) rest free in
    let apart = All-map _ _ (λ j f. (Free-claimed all used k j f).1) rest free in
    ((h, before), (not_includes k rest apart, d))

suggest_from_sound :
    (all : List Candidate) (used columns : List Text)
    → Known all used all
    → All (Free all used) (claimed (suggest_from all used columns))
      × Distinct (claimed (suggest_from all used columns))
unfolding suggest_from
suggest_from_sound all used [] known = (tt, tt)
suggest_from_sound all used (column ∷ columns) known =
    let s = suggest_one all used column (normalize column) in
    let used' = claim used s.target_field_key in
    let (free, d) = suggest_from_sound all used' columns known in
    claim_sound all used s.target_field_key (claimed (suggest_from all used' columns))
      (suggest_one-Free all used column (normalize column) known) free d

Known-more :
    (cs : List Candidate) (ks : List Text) (k : Text)
    → All (λ c. includes ks c.key ≡ true) cs
    → All (λ c. includes (k ∷ ks) c.key ≡ true) cs
Known-more cs ks k = All-map _ _ (λ c h. ground arith) cs

Known_self : (cs : List Candidate) → All (λ c. includes (map (λ d. d.key) cs) c.key ≡ true) cs
Known_self [] = tt
Known_self (c ∷ cs) =
    (ground (arith, ===_iff c.key c.key), Known-more cs (map (λ d. d.key) cs) c.key (Known_self cs))

module _ (cs : List Candidate) (used : List Text) (column source : Text) where
  column-third_tier :
      (o : Option Text) → (third_tier cs used column source o).source_column ≡ column
  unfolding third_tier
  column-third_tier none = refl
  column-third_tier (some k) = refl

  column-second_tier :
      (o : Option Text) → (second_tier cs used column source o).source_column ≡ column
  unfolding second_tier
  column-second_tier none = column-third_tier _
  column-second_tier (some k) = refl

  column-first_tier :
      (o : Option Text) → (first_tier cs used column source o).source_column ≡ column
  unfolding first_tier
  column-first_tier none = column-second_tier _
  column-first_tier (some k) = refl

column-suggest_one :
    (cs : List Candidate) (used : List Text) (column source : Text)
    → (suggest_one cs used column source).source_column ≡ column
unfolding suggest_one
column-suggest_one cs used column [] = refl
column-suggest_one cs used column (c ∷ source) = column-first_tier cs used column (c ∷ source) _

columns-suggest_from :
    (all : List Candidate) (used columns : List Text)
    → map (λ s. s.source_column) (suggest_from all used columns) ≡ columns
unfolding suggest_from
columns-suggest_from all used [] = refl
columns-suggest_from all used (column ∷ columns) =
    ap₂ (λ c cs. c ∷ cs) (column-suggest_one all used column (normalize column))
      (columns-suggest_from all
        (claim used (suggest_one all used column (normalize column)).target_field_key) columns)

keys-candidates :
    (fields : List FieldSpec) → map (λ c. c.key) (map candidate fields) ≡ map (λ f. f.key) fields
unfolding candidate
keys-candidates [] = refl
keys-candidates (f ∷ fields) = ap (λ ks. f.key ∷ ks) (keys-candidates fields)

-- There is one suggestion for each source column, in their order; every target field that is
-- suggested is one of the target's, and none is suggested twice.
pub suggest_mapping_sound :
    (columns : List Text) (fields : List FieldSpec)
    → (map (λ s. s.source_column) (suggest_mapping columns fields) ≡ columns)
      × All
          (λ k. includes (map (λ f. f.key) fields) k ≡ true)
          (claimed (suggest_mapping columns fields))
      × Distinct (claimed (suggest_mapping columns fields))
unfolding suggest_mapping
suggest_mapping_sound columns fields =
    let all = map candidate fields in
    let (free, d) = suggest_from_sound all [] columns (Known_self all) in
    (
      columns-suggest_from all [] columns,
      rw (← keys-candidates fields)
          (All-map _ _ (λ k f. f.1) (claimed (suggest_from all [] columns)) free),
      d,
    )
