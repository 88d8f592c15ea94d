-- ===== src/Parsing/Collect/Laws.antt =====
-- core/parsing/streamingParser.js: what `collectBounded` holds and how it settles.
use universal_data_onboarder.Base.{
  ℕ, ◌≤◌, ◌≡◌, refl, true, false, ◌++◌, List, [], ◌∷◌, map, Option, none, some, length, exceeds,
  exceeds-zero, length-append, append_assoc, append-nil, arith, Bool-cases, Option-cases, inl, inr,
  if◌then◌else◌, ◌∙◌, ap,
}
use universal_data_onboarder.Parsing.Collect.{
  Event, chunk, end_of_data, closed, failure, Outcome, resolved, rejected, Collector, on_record,
  empty, settle, on_data, on_event, collect, collect_bounded,
}

-- The records that the chunks hold, in order.
abbrev pub keep : {R : Type 0} → Option R → List R → List R
keep none rest = rest
keep (some r) rest = r ∷ rest

abbrev pub extracted : {C R : Type 0} → (C → Option R) → List C → List R
extracted extract [] = []
extracted extract (c ∷ cs) = keep (extract c) (extracted extract cs)

-- What the collection should settle with: everything, or only that it was too much.
abbrev pub verdict : {R : Type 0} → Option ℕ → List R → Outcome R
verdict limit records =
    if exceeds (length records) limit then resolved [] true else resolved records false

module _ {C R : Type 0} (extract : C → Option R) (limit : Option ℕ) where
  on_event-settled :
      (c : Collector R) (done : Outcome R) (e : Event C)
      → c.outcome ≡ some done
      → (on_event extract limit c e).outcome ≡ some done
  unfolding on_event
  on_event-settled c done (chunk v) h = ground arith
  on_event-settled c done end_of_data h = ground arith
  on_event-settled c done closed h = ground arith
  on_event-settled c done (failure m) h = ground arith

  -- Once the promise is settled, no later event changes how.
  collect-settled :
      (c : Collector R) (done : Outcome R) (es : List (Event C))
      → c.outcome ≡ some done
      → (collect extract limit c es).outcome ≡ some done
  unfolding collect
  collect-settled c done [] h = h
  collect-settled c done (e ∷ es) h =
      collect-settled (on_event extract limit c e) done es (on_event-settled c done e h)

  abbrev waiting : List R → Collector R
  waiting records = record { records = records; outcome = none }

  exceeds_mono : (m n : ℕ) → m ≤ n → exceeds m limit ≡ true → exceeds n limit ≡ true
  exceeds_mono m n le h = ground arith

  length-le-append :
      (xs : List R) (y : R) (ys : List R) → length (xs ++ y ∷ []) ≤ length (xs ++ y ∷ ys)
  length-le-append xs y ys = omega (arith, length-append xs (y ∷ []), length-append xs (y ∷ ys))

  on_record-kept :
      (records : List R) (r : R)
      → exceeds (length (records ++ r ∷ [])) limit ≡ false
      → on_record extract limit records (some r) ≡ waiting (records ++ r ∷ [])
  unfolding on_record
  on_record-kept records r h = rw h

  on_record-passed :
      (records : List R) (r : R)
      → exceeds (length (records ++ r ∷ [])) limit ≡ true
      → (on_record extract limit records (some r)).outcome ≡ some (resolved [] true)
  unfolding on_record
  on_record-passed records r h = rw h

  -- One record, with what is known of the events behind it.
  collect-record :
      (records : List R) (o : Option R) (rest : List R) (es : List (Event C))
      → ((rs : List R)
          → exceeds (length rs) limit ≡ false
          → (collect extract limit (waiting rs) es).outcome ≡ some (verdict limit (rs ++ rest)))
      → exceeds (length records) limit ≡ false
      → (collect extract limit (on_record extract limit records o) es).outcome
        ≡ some (verdict limit (records ++ keep o rest))
  collect-record records none rest es ih h = unfold on_record in ih records h
  collect-record records (some r) rest es ih h =
      elim (Bool-cases (exceeds (length (records ++ r ∷ [])) limit)) [
        | inl over ↦
            collect-settled (on_record extract limit records (some r)) (resolved [] true) es
              (on_record-passed records r over)
            ∙ rw (
                exceeds_mono (length (records ++ r ∷ [])) (length (records ++ r ∷ rest))
                  (length-le-append records r rest) over)
        | inr fits ↦ rw (on_record-kept records r fits) (
            ih (records ++ r ∷ []) fits
            ∙ ap (λ rs. some (verdict limit rs)) (append_assoc records (r ∷ []) rest))
      ]

  -- The chunks, then the end, from a collector that waits.
  collect-chunks :
      (records : List R) (cs : List C) (later : List (Event C))
      → exceeds (length records) limit ≡ false
      → (collect extract limit (waiting records) (map chunk cs ++ end_of_data ∷ later)).outcome
        ≡ some (verdict limit (records ++ extracted extract cs))
  unfolding collect on_event
  collect-chunks records [] later h =
      collect-settled _ (resolved records false) later refl ∙ rw append-nil (rw h)
  collect-chunks records (v ∷ cs) later h =
      collect-record records (extract v) (extracted extract cs)
        (map chunk cs ++ end_of_data ∷ later) (λ rs k. collect-chunks rs cs later k) h

  -- A stream of chunks that ends settles with every record that they hold, or, if these pass
  -- the limit, with no record and `exceeded`; whatever events come after the end.
  pub collect_bounded-chunks :
      (cs : List C) (later : List (Event C))
      → collect_bounded extract limit (map chunk cs ++ end_of_data ∷ later)
        ≡ some (verdict limit (extracted extract cs))
  unfolding collect_bounded
  collect_bounded-chunks cs later = collect-chunks [] cs later (exceeds-zero limit)

  on_event-fits :
      (c : Collector R) (e : Event C)
      → exceeds (length c.records) limit ≡ false
      → exceeds (length (on_event extract limit c e).records) limit ≡ false
  unfolding on_event on_data on_record
  on_event-fits c (chunk v) h = elim (Option-cases c.outcome) [
    | inl open_ ↦ elim (Option-cases (extract v)) [
      | inl skip ↦ rw (open_, skip) h
      | inr (r, some_r) ↦ elim (Bool-cases (exceeds (length (c.records ++ r ∷ [])) limit)) [
        | inl over ↦ rw (open_, some_r, over) (exceeds-zero limit)
        | inr fits ↦ rw (open_, some_r, fits) fits
      ]
    ]
    | inr (o, done) ↦ rw done h
  ]
  on_event-fits c end_of_data h = h
  on_event-fits c closed h = h
  on_event-fits c (failure m) h = h

  collect-fits :
      (c : Collector R) (es : List (Event C))
      → exceeds (length c.records) limit ≡ false
      → exceeds (length (collect extract limit c es).records) limit ≡ false
  unfolding collect
  collect-fits c [] h = h
  collect-fits c (e ∷ es) h = collect-fits (on_event extract limit c e) es (on_event-fits c e h)

-- Between two events the collector never holds more records than the limit, whatever the events
-- and their order.
pub collect_memory :
    {C R : Type 0} (extract : C → Option R) (limit : ℕ) (es : List (Event C))
    → length (collect extract (some limit) empty es).records ≤ limit
collect_memory extract limit es =
    let fits : exceeds (length (collect extract (some limit) empty es).records) (some limit)
        ≡ false =
      collect-fits extract (some limit) empty es (exceeds-zero (some limit)) in
    ground arith

-- An outcome with no more records than the limit, and none where it was passed.
abbrev pub OutcomeFits : {R : Type 0} → Option ℕ → Option (Outcome R) → Type 0
OutcomeFits limit none = Unit
OutcomeFits limit (some (resolved rs over)) =
    (exceeds (length rs) limit ≡ false) × (over ≡ true → rs ≡ [])
OutcomeFits limit (some (rejected m)) = Unit

module _ {C R : Type 0} (extract : C → Option R) (limit : Option ℕ) where
  settle-OutcomeFits :
      (new : Outcome R) (old : Option (Outcome R))
      → OutcomeFits limit (some new)
      → OutcomeFits limit old
      → OutcomeFits limit (settle extract limit new old)
  unfolding settle
  settle-OutcomeFits new none h k = h
  settle-OutcomeFits new (some o) h k = k

  on_record-OutcomeFits :
      (records : List R) (o : Option R)
      → OutcomeFits limit (on_record extract limit records o).outcome
  unfolding on_record
  on_record-OutcomeFits records none = tt
  on_record-OutcomeFits records (some r) =
      elim (Bool-cases (exceeds (length (records ++ r ∷ [])) limit)) [
        | inl over ↦ rw over (exceeds-zero limit, λ _. refl)
        | inr fits ↦ rw fits tt
      ]

  on_data-OutcomeFits :
      (c : Collector R) (o : Option (Outcome R)) (v : C)
      → o ≡ c.outcome
      → OutcomeFits limit o
      → OutcomeFits limit (on_data extract limit c o v).outcome
  unfolding on_data
  on_data-OutcomeFits c none v e k = on_record-OutcomeFits c.records (extract v)
  on_data-OutcomeFits c (some o) v e k = rw (← e) k

  on_event-OutcomeFits :
      (c : Collector R) (e : Event C)
      → exceeds (length c.records) limit ≡ false
      → OutcomeFits limit c.outcome
      → OutcomeFits limit (on_event extract limit c e).outcome
  unfolding on_event
  on_event-OutcomeFits c (chunk v) h k = on_data-OutcomeFits c c.outcome v refl k
  on_event-OutcomeFits c end_of_data h k =
      settle-OutcomeFits (resolved c.records false) c.outcome (h, λ e. cc) k
  on_event-OutcomeFits c closed h k =
      settle-OutcomeFits (resolved c.records false) c.outcome (h, λ e. cc) k
  on_event-OutcomeFits c (failure m) h k = settle-OutcomeFits (rejected m) c.outcome tt k

  collect-OutcomeFits :
      (c : Collector R) (es : List (Event C))
      → exceeds (length c.records) limit ≡ false
      → OutcomeFits limit c.outcome
      → OutcomeFits limit (collect extract limit c es).outcome
  unfolding collect
  collect-OutcomeFits c [] h k = k
  collect-OutcomeFits c (e ∷ es) h k =
      collect-OutcomeFits (on_event extract limit c e) es (on_event-fits extract limit c e h)
        (on_event-OutcomeFits c e h k)

  pub collect_bounded-OutcomeFits :
      (es : List (Event C)) → OutcomeFits limit (collect_bounded extract limit es)
  unfolding collect_bounded
  collect_bounded-OutcomeFits es = collect-OutcomeFits empty es (exceeds-zero limit) tt
