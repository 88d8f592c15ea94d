-- ===== src/Mapping/Suggest.antt =====
-- core/mapping/applyMapping.js: `suggestMapping`, in three tiers.
pub mod Claims
pub mod Job
use universal_data_onboarder.Base.{
  ℕ, ◌+◌, Bool, true, false, ◌||◌, ◌&&◌, List, [], ◌∷◌, ◌++◌, map, Option, none, some, ◌==◌, leb,
  ltb, length, any, filter, Text, ◌===◌, includes, is_digit, lower, if◌then◌else◌,
}
use universal_data_onboarder.Registry.{FieldSpec}
use universal_data_onboarder.Mapping.Distance.{levenshtein}

-- `toLowerCase` on what can become one of a to z: the ASCII letters, the Kelvin sign, and the
-- dotted I (whose second code unit is then dropped).
fold_case : ℕ → ℕ
unfolding lower
fold_case c = if c == 0x212a then b'k' else if c == 0x130 then b'i' else lower c

is_kept : ℕ → Bool
unfolding is_digit
is_kept c = (leb b'a' c && leb c b'z') || is_digit c

-- `normalize`
unfoldable pub normalize : Text → Text
unfolding fold_case is_kept
normalize s = filter is_kept (map fold_case s)

abbrev is_filled : Text → Bool
is_filled [] = false
is_filled (c ∷ s) = true

pub record Candidate : Type 0 where
  pub key : Text
  pub forms : List Text

unfoldable pub candidate : FieldSpec → Candidate
unfolding normalize
candidate f = record {
  key = f.key;
  forms = filter is_filled (map normalize (f.key ∷ f.label ∷ f.aliases));
}

begins : Text → Text → Bool
begins [] s = true
begins (k ∷ ks) [] = false
begins (k ∷ ks) (c ∷ s) = k == c && begins ks s

-- `s.includes(part)` of texts.
unfoldable pub contains : Text → Text → Bool
unfolding begins
contains [] part = begins part []
contains (c ∷ s) part = begins part (c ∷ s) || contains s part

-- The first candidate that is not used and passes the test.
find_free : List Text → (Candidate → Bool) → List Candidate → Option Text
unfolding ◌===◌
find_free used test [] = none
find_free used test (c ∷ cs) =
    let later = find_free used test cs in
    if includes used c.key then later else if test c then some c.key else later

is_exact : Text → Candidate → Bool
unfolding ◌===◌
is_exact source c = includes c.forms source

is_contained : Text → Candidate → Bool
unfolding contains
is_contained source c =
    any (λ f. ltb 2 (length f) && (contains source f || contains f source)) c.forms

-- The nearest form so far, and its distance; `none` stands for the distance `Infinity`.
abbrev pub Best : Type 0
Best = Option (Text × ℕ)

nearer : Text → ℕ → Best → Best
nearer key dist none = some (key, dist)
nearer key dist (some (old, least)) = if ltb dist least then some (key, dist) else some (old, least)

over_forms : Text → Text → List Text → Best → Best
unfolding levenshtein nearer
over_forms source key [] best = best
over_forms source key (f ∷ fs) best =
    over_forms source key fs (nearer key (levenshtein source f) best)

over_candidates : List Text → Text → List Candidate → Best → Best
unfolding over_forms ◌===◌
over_candidates used source [] best = best
over_candidates used source (c ∷ cs) best =
    over_candidates used source cs
      (if includes used c.key then best else over_forms source c.key c.forms best)

accept_best : Text → Best → Option Text
accept_best source none = none
accept_best source (some (key, dist)) =
    if ltb 3 (length source) && leb dist 2 then some key else none

pub data Confidence : Type 0 where
  exact fuzzy : Confidence

pub record Suggestion : Type 0 where
  pub source_column : Text
  pub target_field_key : Option Text
  pub confidence : Option Confidence

abbrev nothing : Text → Suggestion
nothing column = record { source_column = column; target_field_key = none; confidence = none }

abbrev something : Text → Text → Confidence → Suggestion
something column key how = record {
  source_column = column;
  target_field_key = some key;
  confidence = some how;
}

module _ (cs : List Candidate) (used : List Text) (column source : Text) where
  third_tier : Option Text → Suggestion
  third_tier none = nothing column
  third_tier (some key) = something column key fuzzy

  second_tier : Option Text → Suggestion
  unfolding third_tier accept_best over_candidates
  second_tier none = third_tier (accept_best source (over_candidates used source cs none))
  second_tier (some key) = something column key fuzzy

  first_tier : Option Text → Suggestion
  unfolding second_tier find_free is_contained
  first_tier none = second_tier (find_free used (is_contained source) cs)
  first_tier (some key) = something column key exact

-- The body of the `map` over the source columns, given the normalized column.
suggest_one : List Candidate → List Text → Text → Text → Suggestion
unfolding first_tier find_free is_exact
suggest_one cs used column [] = nothing column
suggest_one cs used column (c ∷ source) =
    first_tier cs used column (c ∷ source) (find_free used (is_exact (c ∷ source)) cs)

-- `claim`
claim : List Text → Option Text → List Text
claim used none = used
claim used (some key) = key ∷ used

suggest_from : List Candidate → List Text → List Text → List Suggestion
unfolding suggest_one claim normalize
suggest_from cs used [] = []
suggest_from cs used (column ∷ columns) =
    let s = suggest_one cs used column (normalize column) in
    s ∷ suggest_from cs (claim used s.target_field_key) columns

unfoldable pub suggest_mapping : List Text → List FieldSpec → List Suggestion
unfolding suggest_from candidate
suggest_mapping columns fields = suggest_from (map candidate fields) [] columns
