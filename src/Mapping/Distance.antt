-- ===== src/Mapping/Distance.antt =====
-- core/mapping/applyMapping.js: `levenshtein`, a table filled row by row.
pub mod Optimal
use universal_data_onboarder.Base.{
  ℕ, suc, ◌+◌, ◌≤◌, ◌≡◌, refl, min, List, [], ◌∷◌, ◌==◌, length, Text, if◌then◌else◌, arith,
  reverse, ◌∙◌, ap,
}

-- The rest of row `i` of `dp`: `above` is row `i - 1` from the column before, `left` the cell
-- that was filled last.
fill_row : ℕ → Text → List ℕ → ℕ → List ℕ
fill_row x [] above left = left ∷ []
fill_row x (y ∷ b) [] left = left ∷ []
fill_row x (y ∷ b) (diagonal ∷ []) left = left ∷ []
fill_row x (y ∷ b) (diagonal ∷ up ∷ above) left =
    left ∷ fill_row x b (up ∷ above) (if x == y then diagonal else 1 + min up (min left diagonal))

-- Row 0: `dp[0][j] = j`.
first_row : ℕ → Text → List ℕ
first_row j [] = j ∷ []
first_row j (y ∷ b) = j ∷ first_row (suc j) b

-- The outer loop from row `i`.
fill_table : ℕ → Text → Text → List ℕ → List ℕ
unfolding fill_row
fill_table i [] b row = row
fill_table i (x ∷ a) b row = fill_table (suc i) a b (fill_row x b row (suc i))

last : List ℕ → ℕ
last [] = 0
last (n ∷ []) = n
last (n ∷ m ∷ ns) = last (m ∷ ns)

-- `levenshtein`
unfoldable pub levenshtein : Text → Text → ℕ
unfolding fill_table first_row last
levenshtein [] b = length b
levenshtein (x ∷ a) [] = length (x ∷ a)
levenshtein (x ∷ a) (y ∷ b) = last (fill_table 0 (x ∷ a) (y ∷ b) (first_row 0 (y ∷ b)))
