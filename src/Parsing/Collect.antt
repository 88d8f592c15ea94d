-- ===== src/Parsing/Collect.antt =====
-- core/parsing/streamingParser.js: `collectBounded`, a handler for each event of a stream.
pub mod Laws
use universal_data_onboarder.Base.{
  ℕ, Bool, true, false, ◌++◌, List, [], ◌∷◌, Option, none, some, length, exceeds, Text,
  if◌then◌else◌,
}

pub data Event (C : Type 0) : Type 0 where
  chunk : C → Event C
  end_of_data closed : Event C
  failure : Text → Event C

-- How the promise was settled.
pub data Outcome (R : Type 0) : Type 0 where
  resolved : List R → Bool → Outcome R
  rejected : Text → Outcome R

-- The variables of the closure; the promise is settled once there is an outcome.
pub record Collector (R : Type 0) : Type 0 where
  pub records : List R
  pub outcome : Option (Outcome R)

abbrev pub empty : {R : Type 0} → Collector R
empty = record { records = []; outcome = none }

module _ {C R : Type 0} (extract : C → Option R) (limit : Option ℕ) where
  -- `finish` and `fail`
  settle : Outcome R → Option (Outcome R) → Option (Outcome R)
  settle new none = some new
  settle new (some old) = some old

  -- The `data` handler of a promise that is not settled.
  on_record : List R → Option R → Collector R
  on_record records none = record { records = records; outcome = none }
  on_record records (some value) =
      let grown = records ++ value ∷ [] in
      if exceeds (length grown) limit
      then record { records = []; outcome = some (resolved [] true) }
      else record { records = grown; outcome = none }

  on_data : Collector R → Option (Outcome R) → C → Collector R
  unfolding on_record
  on_data c none value = on_record c.records (extract value)
  on_data c (some done) value = c

  unfoldable pub on_event : Collector R → Event C → Collector R
  unfolding on_data settle
  on_event c (chunk value) = on_data c c.outcome value
  on_event c end_of_data = record c { outcome = settle (resolved c.records false) c.outcome }
  on_event c closed = record c { outcome = settle (resolved c.records false) c.outcome }
  on_event c (failure message) = record c { outcome = settle (rejected message) c.outcome }

  unfoldable pub collect : Collector R → List (Event C) → Collector R
  unfolding on_event
  collect c [] = c
  collect c (e ∷ es) = collect (on_event c e) es

  -- `collectBounded`: how the promise is settled, if it is.
  unfoldable pub collect_bounded : List (Event C) → Option (Outcome R)
  unfolding collect
  collect_bounded es = (collect empty es).outcome
