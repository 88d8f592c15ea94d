-- ===== src/Sql/Scan/Progress.antt =====
-- core/parsing/sqlDumpParser.js: each match of `INSERT_PREFIX` takes some of the text.
use universal_data_onboarder.Base.{
  ℕ, suc, ◌≤◌, ◌<◌, Bool, true, false, [], ◌∷◌, Option, none, some, ◌==◌, length, Text, codes,
  arith, lower, is_space, trim_start, if◌then◌else◌,
}
use universal_data_onboarder.Sql.Progress.{length-trim_start}
use universal_data_onboarder.Sql.Scan.{
  keyword, spaces, read_name, read_columns, ◌>=>◌, Prefix, values_prefix, bracketed,
  columns_then_values, named_prefix, match_prefix, or_else, exec, skip_separators, ahead, Ahead,
  semicolon, tuple, stop,
}

-- A match whose value satisfies `P`.
abbrev pub Gives : {A : Type 0} → (A → Type 0) → Option A → Type 0
Gives P none = Unit
Gives P (some a) = P a

Gives-bind :
    {A B : Type 0} (P : A → Type 0) (Q : B → Type 0) (m : Option A) (f : A → Option B)
    → Gives P m
    → ((a : A) → P a → Gives Q (f a))
    → Gives Q (m >=> f)
Gives-bind P Q none f h k = tt
Gives-bind P Q (some a) f h k = k a h

Gives-if :
    {A : Type 0} (P : A → Type 0) (b : Bool) (m n : Option A)
    → Gives P m
    → Gives P n
    → Gives P (if b then m else n)
Gives-if P true m n h k = h
Gives-if P false m n h k = k

abbrev Within : ℕ → Text → Type 0
Within n t = length t ≤ n

abbrev RestWithin : ℕ → Prefix → Type 0
RestWithin n p = length p.rest ≤ n

Within-weaken : (m n : ℕ) (o : Option Text) → m ≤ n → Gives (Within m) o → Gives (Within n) o
Within-weaken m n none le h = tt
Within-weaken m n (some t) le h = omega arith

RestWithin-weaken :
    (m n : ℕ) (o : Option Prefix) → m ≤ n → Gives (RestWithin m) o → Gives (RestWithin n) o
RestWithin-weaken m n none le h = tt
RestWithin-weaken m n (some t) le h = omega arith

keyword-Within : (ks s : Text) → Gives (Within (length s)) (keyword ks s)
unfolding keyword
keyword-Within [] s = omega arith
keyword-Within (k ∷ ks) [] = tt
keyword-Within (k ∷ ks) (c ∷ s) =
    Gives-if (Within (suc (length s))) (k == lower c) (keyword ks s) none
      (Within-weaken (length s) (suc (length s)) (keyword ks s) (omega arith) (keyword-Within ks s))
      tt

spaces-Within : (s : Text) → Gives (Within (length s)) (spaces s)
unfolding spaces
spaces-Within [] = tt
spaces-Within (c ∷ s) =
    Gives-if (Within (suc (length s))) (is_space c) (some (trim_start s)) none
      (omega (arith, length-trim_start s)) tt

length-read_name : (s : Text) → length (read_name s).1 ≤ length s
unfolding read_name
length-read_name [] = omega arith
length-read_name (c ∷ s) = ground (arith, length-read_name s)

read_columns-Within : (s : Text) → Gives (λ p. length p.1 ≤ length s) (read_columns s)
unfolding read_columns
read_columns-Within [] = tt
read_columns-Within (c ∷ s) = ground (arith, read_columns-Within s)

values_prefix-RestWithin :
    (name : Text) (cols : Option Text) (s : Text)
    → Gives (RestWithin (length s)) (values_prefix name cols s)
unfolding values_prefix
values_prefix-RestWithin name cols s =
    Gives-bind (Within (length s)) (RestWithin (length s)) (spaces s) _ (spaces-Within s) (λ t k.
      Gives-bind (Within (length t)) (RestWithin (length s)) (keyword (codes "values") t) _
        (keyword-Within (codes "values") t) (λ u l. omega arith))

bracketed-RestWithin :
    (name s t : Text) (n : ℕ)
    → length s ≤ n
    → length t ≤ n
    → Gives (RestWithin n) (bracketed name s t)
unfolding bracketed
bracketed-RestWithin name s [] n p q = tt
bracketed-RestWithin name s (c ∷ r) n p q =
    Gives-if (RestWithin n) (c == b'(') _ _
      (Gives-bind (λ d. length d.1 ≤ length r) (RestWithin n) (read_columns r) _
        (read_columns-Within r)
        (λ (cols, t) k.
          RestWithin-weaken (length t) n (values_prefix name (some cols) t) (omega arith)
            (values_prefix-RestWithin name (some cols) t)))
      (RestWithin-weaken (length s) n (values_prefix name none s) p
        (values_prefix-RestWithin name none s))

named_prefix-RestWithin : (name s : Text) → Gives (RestWithin (length s)) (named_prefix (name, s))
unfolding named_prefix columns_then_values
named_prefix-RestWithin [] s = tt
named_prefix-RestWithin (c ∷ name) s =
    bracketed-RestWithin (c ∷ name) s (trim_start s) (length s) (omega arith) (length-trim_start s)

into_prefix-RestWithin :
    (s : Text)
    → Gives (RestWithin (length s)) (
        spaces s >=> (λ b.
          keyword (codes "into") b >=> (λ c. spaces c >=> (λ d. named_prefix (read_name d)))))
into_prefix-RestWithin s =
    let n : ℕ = length s in
    Gives-bind (Within n) (RestWithin n) (spaces s) _ (spaces-Within s) (λ b hb.
      Gives-bind (Within (length b)) (RestWithin n) (keyword (codes "into") b) _
        (keyword-Within (codes "into") b)
        (λ c hc.
          Gives-bind (Within (length c)) (RestWithin n) (spaces c) _ (spaces-Within c) (λ d hd.
            RestWithin-weaken (length (read_name d).1) n (named_prefix (read_name d))
              (omega (arith, length-read_name d))
              (named_prefix-RestWithin (read_name d).0 (read_name d).1))))

-- The keyword INSERT takes at least one character.
match_prefix-RestWithin : (c : ℕ) (s : Text) → Gives (RestWithin (length s)) (match_prefix (c ∷ s))
unfolding match_prefix keyword
match_prefix-RestWithin c s =
    Gives-bind (Within (length s)) (RestWithin (length s)) (keyword (codes "insert") (c ∷ s)) _
      (Gives-if (Within (length s)) (b'i' == lower c) (keyword (codes "nsert") s) none
        (keyword-Within (codes "nsert") s) tt)
      (λ a k. RestWithin-weaken (length a) (length s) _ k (into_prefix-RestWithin a))

or_else-Gives :
    (P : Prefix → Type 0) (o later : Option Prefix)
    → Gives P o
    → Gives P later
    → Gives P (or_else o later)
unfolding or_else
or_else-Gives P none later h k = k
or_else-Gives P (some p) later h k = h

-- What follows the next match is shorter than the text.
pub exec-Gives : (s : Text) → Gives (λ p. length p.rest < length s) (exec s)
unfolding exec
exec-Gives [] = tt
exec-Gives (c ∷ s) =
    or_else-Gives (λ p. length p.rest < suc (length s)) (match_prefix (c ∷ s)) (exec s)
      (widen (match_prefix (c ∷ s)) (match_prefix-RestWithin c s))
      (widen_lt (exec s) (exec-Gives s))
  where
    widen :
        (o : Option Prefix)
        → Gives (RestWithin (length s)) o
        → Gives (λ p. length p.rest < suc (length s)) o
    widen none h = tt
    widen (some p) h = omega arith

    widen_lt :
        (o : Option Prefix)
        → Gives (λ p. length p.rest < length s) o
        → Gives (λ p. length p.rest < suc (length s)) o
    widen_lt none h = tt
    widen_lt (some p) h = omega arith

pub length-skip_separators : (s : Text) → length (skip_separators s) ≤ length s
unfolding skip_separators
length-skip_separators [] = omega arith
length-skip_separators (c ∷ s) = ground (arith, length-skip_separators s)

-- What is behind a `;` or an opening bracket is shorter than the text.
abbrev pub AheadFits : ℕ → Ahead → Type 0
AheadFits n (semicolon r) = length r < n
AheadFits n (tuple r) = length r < n
AheadFits n stop = Unit

pub ahead-fits : (s : Text) → AheadFits (length s) (ahead s)
unfolding ahead
ahead-fits [] = tt
ahead-fits (c ∷ s) = ground arith
