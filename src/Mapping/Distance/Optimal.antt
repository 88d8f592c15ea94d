-- ===== src/Mapping/Distance/Optimal.antt =====
-- core/mapping/applyMapping.js: `levenshtein` is the least number of edits.
use mathlib.Core.List.{reverse_aux, reverse-reverse}
use mathlib.Core.Path.{subst, subst₂}
use universal_data_onboarder.Base.{
  ℕ, suc, ◌+◌, ◌≤◌, ◌≡◌, refl, min, List, [], ◌∷◌, ◌==◌, length, Text, if◌then◌else◌, arith,
  reverse, ◌∙◌, ap, sym, Bool-cases, ◌⊎◌, inl, inr,
}
use universal_data_onboarder.Mapping.Distance.{fill_row, first_row, fill_table, last, levenshtein}

-- `n` insertions, deletions and replacements take the first text to the second.
pub data Edits : Text → Text → ℕ → Type 0 where
  done : Edits [] [] 0
  keep : {a b : Text} {n : ℕ} (c : ℕ) → Edits a b n → Edits (c ∷ a) (c ∷ b) n
  replace : {a b : Text} {n : ℕ} (c d : ℕ) → Edits a b n → Edits (c ∷ a) (d ∷ b) (suc n)
  delete : {a b : Text} {n : ℕ} (c : ℕ) → Edits a b n → Edits (c ∷ a) b (suc n)
  insert : {a b : Text} {n : ℕ} (d : ℕ) → Edits a b n → Edits a (d ∷ b) (suc n)

-- The recursion behind the table, over the prefixes read backwards.
abbrev dist : Text → Text → ℕ
dist [] b = length b
dist (x ∷ a) [] = suc (length a)
dist (x ∷ a) (y ∷ b) =
    let diagonal = dist a b in
    let other = 1 + min (dist a (y ∷ b)) (min (dist (x ∷ a) b) diagonal) in
    if x == y then diagonal else other

-- A row of the table from the column that reads `done_b`.
abbrev row_of : Text → Text → Text → List ℕ
row_of a b [] = dist a b ∷ []
row_of a b (y ∷ rest) = dist a b ∷ row_of a (y ∷ b) rest

fill_row-row_of :
    (x : ℕ) (a b rest : Text)
    → fill_row x rest (row_of a b rest) (dist (x ∷ a) b) ≡ row_of (x ∷ a) b rest
unfolding fill_row
fill_row-row_of x a b [] = refl
fill_row-row_of x a b (y ∷ []) = ap (λ t. dist (x ∷ a) b ∷ t) (fill_row-row_of x a (y ∷ b) [])
fill_row-row_of x a b (y ∷ z ∷ rest) =
    ap (λ t. dist (x ∷ a) b ∷ t) (fill_row-row_of x a (y ∷ b) (z ∷ rest))

first_row-row_of : (b rest : Text) → first_row (length b) rest ≡ row_of [] b rest
unfolding first_row
first_row-row_of b [] = refl
first_row-row_of b (y ∷ rest) = ap (λ t. length b ∷ t) (first_row-row_of (y ∷ b) rest)

dist-nil : (a : Text) → dist a [] ≡ length a
dist-nil [] = refl
dist-nil (x ∷ a) = refl

-- The table's rows, from the row that reads the prefix `a`.
fill_table-row_of :
    (a rest b : Text)
    → fill_table (length a) rest b (row_of a [] b) ≡ row_of (reverse_aux rest a) [] b
unfolding fill_table
fill_table-row_of a [] b = refl
fill_table-row_of a (x ∷ rest) b =
    ap (fill_table (suc (length a)) rest b) (fill_row-row_of x a [] b)
    ∙ fill_table-row_of (x ∷ a) rest b

last-row_of : (a b rest : Text) → last (row_of a b rest) ≡ dist a (reverse_aux rest b)
unfolding last
last-row_of a b [] = refl
last-row_of a b (y ∷ []) = refl
last-row_of a b (y ∷ z ∷ rest) = last-row_of a (y ∷ b) (z ∷ rest)

length-reverse_aux : (a b : Text) → length (reverse_aux a b) ≡ length a + length b
length-reverse_aux [] b = omega arith
length-reverse_aux (x ∷ a) b = omega (arith, length-reverse_aux a (x ∷ b))

dist-nil_left : (b : Text) → dist [] b ≡ length b
dist-nil_left b = refl

levenshtein-dist : (a b : Text) → levenshtein a b ≡ dist (reverse a) (reverse b)
unfolding levenshtein
levenshtein-dist [] b = omega (arith, length-reverse_aux b [])
levenshtein-dist (x ∷ a) [] =
    sym (dist-nil (reverse (x ∷ a)) ∙ length-reverse_aux (x ∷ a) [] ∙ omega arith)
levenshtein-dist (x ∷ a) (y ∷ b) =
    ap (λ row. last (fill_table 0 (x ∷ a) (y ∷ b) row)) (first_row-row_of [] (y ∷ b))
    ∙ ap last (fill_table-row_of [] (x ∷ a) (y ∷ b))
    ∙ last-row_of (reverse (x ∷ a)) [] (y ∷ b)

-- One more letter on either side changes the distance by one at most.
abbrev Near : Text → Text → ℕ → ℕ → Type 0
Near a b x y =
    (dist a b ≤ 1 + dist (x ∷ a) b)
    × (dist (x ∷ a) b ≤ 1 + dist a b)
    × (dist a b ≤ 1 + dist a (y ∷ b))
    × (dist a (y ∷ b) ≤ 1 + dist a b)

-- The step, over the distances that it speaks of.
near_step :
    (c d x y here up over left beyond : ℕ)
    → up ≤ 1 + here
    → here ≤ 1 + up
    → up ≤ 1 + over
    → over ≤ 1 + up
    → left ≤ 1 + here
    → here ≤ 1 + left
    → left ≤ 1 + beyond
    → beyond ≤ 1 + left
    → let across = (if x == d then up else 1 + min here (min over up)) in
      let down = (if c == y then left else 1 + min beyond (min here left)) in
      (here ≤ 1 + across) × (across ≤ 1 + here) × (here ≤ 1 + down) × (down ≤ 1 + here)
near_step c d x y here up over left beyond a₁ a₂ a₃ a₄ b₁ b₂ b₃ b₄ = ground arith

near : (a b : Text) (x y : ℕ) → Near a b x y
near [] [] x y = omega arith
near [] (d ∷ b) x y = ground (arith, near [] b x d)
near (c ∷ a) [] x y = ground (arith, near a [] c y, dist-nil a)
near (c ∷ a) (d ∷ b) x y =
    near_step c d x y (dist (c ∷ a) (d ∷ b)) (dist (c ∷ a) b) (dist (x ∷ c ∷ a) b) (dist a (d ∷ b))
      (dist a (y ∷ d ∷ b)) (near (c ∷ a) b x d).2 (near (c ∷ a) b x d).3 (near (c ∷ a) b x d).0
      (near (c ∷ a) b x d).1 (near a (d ∷ b) c y).0 (near a (d ∷ b) c y).1 (near a (d ∷ b) c y).2
      (near a (d ∷ b) c y).3

dist-le : {a b : Text} {n : ℕ} → Edits a b n → dist a b ≤ n
dist-le done = omega arith
dist-le (keep c e) = ground (arith, dist-le e)
dist-le (replace c d e) = ground (arith, dist-le e)
dist-le (delete {a} {b} c e) = omega (arith, dist-le e, (near a b c 0).1)
dist-le (insert {a} {b} d e) = omega (arith, dist-le e, (near a b 0 d).3)

Edits-insert_all : (b : Text) → Edits [] b (length b)
Edits-insert_all [] = done
Edits-insert_all (d ∷ b) = insert d (Edits-insert_all b)

Edits-delete_all : (a : Text) → Edits a [] (length a)
Edits-delete_all [] = done
Edits-delete_all (c ∷ a) = delete c (Edits-delete_all a)

min_cases :
    (p q r : ℕ)
    → (1 + min p (min q r) ≡ suc p) ⊎ (1 + min p (min q r) ≡ suc q) ⊎ (1 + min p (min q r) ≡ suc r)
min_cases p q r = ground arith

-- The edits that the table's choices spell out.
Edits-dist : (a b : Text) → Edits a b (dist a b)
Edits-dist [] b = Edits-insert_all b
Edits-dist (x ∷ a) [] = Edits-delete_all (x ∷ a)
Edits-dist (x ∷ a) (y ∷ b) = elim (Bool-cases (x == y)) [
  | inl e ↦
      (let same : x ≡ y = ground arith in
        rw e (subst (λ c. Edits (x ∷ a) (c ∷ b) (dist a b)) same (keep x (Edits-dist a b))))
  | inr e ↦ rw e (elim (min_cases (dist a (y ∷ b)) (dist (x ∷ a) b) (dist a b)) [
    | inl d ↦ subst (Edits (x ∷ a) (y ∷ b)) (sym d) (delete x (Edits-dist a (y ∷ b)))
    | inr (inl i) ↦ subst (Edits (x ∷ a) (y ∷ b)) (sym i) (insert y (Edits-dist (x ∷ a) b))
    | inr (inr r) ↦ subst (Edits (x ∷ a) (y ∷ b)) (sym r) (replace x y (Edits-dist a b))
  ])
]

-- Edits read backwards, in front of others.
Edits-reverse_aux :
    {a b : Text} {n : ℕ}
    → Edits a b n
    → {a' b' : Text} {m : ℕ} → Edits a' b' m
    → Edits (reverse_aux a a') (reverse_aux b b') (n + m)
Edits-reverse_aux done {a'} {b'} {m} f = subst (Edits a' b') (omega arith) f
Edits-reverse_aux (keep c e) f = Edits-reverse_aux e (keep c f)
Edits-reverse_aux (replace c d e) f =
    subst (Edits _ _) (omega arith) (Edits-reverse_aux e (replace c d f))
Edits-reverse_aux (delete c e) f =
    subst (Edits _ _) (omega arith) (Edits-reverse_aux e (delete c f))
Edits-reverse_aux (insert d e) f =
    subst (Edits _ _) (omega arith) (Edits-reverse_aux e (insert d f))

Edits-reverse : {a b : Text} {n : ℕ} → Edits a b n → Edits (reverse a) (reverse b) n
Edits-reverse {a} {b} e =
    subst (Edits (reverse a) (reverse b)) (omega arith) (Edits-reverse_aux e done)

-- `levenshtein` is the least number of insertions, deletions and replacements that take the one
-- text to the other: so many are enough, and no fewer are.
pub levenshtein_least :
    (a b : Text) → Edits a b (levenshtein a b) × ((n : ℕ) → Edits a b n → levenshtein a b ≤ n)
levenshtein_least a b = rw (levenshtein-dist a b) (
  subst₂ (λ u v. Edits u v (dist (reverse a) (reverse b))) (reverse-reverse a) (reverse-reverse b)
      (Edits-reverse (Edits-dist (reverse a) (reverse b))),
  λ n e. dist-le (Edits-reverse e),
)
