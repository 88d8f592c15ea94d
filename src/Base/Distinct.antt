-- ===== src/Base/Distinct.antt =====
-- Lists of texts without a repetition, the order of a JavaScript `Set`.
use Prim.Native.Nat.{suc, ◌≤◌, ◌<◌}
use mathlib.Core.Path.{◌≡◌, refl, sym, ◌∙◌}
use mathlib.Core.Bool.{true, false, ◌||◌}
use mathlib.Core.Logic.{inl, inr}
use mathlib.Core.List.{List, [], ◌∷◌, ◌++◌}
use native.Mathlib.Omega.{arith}
use universal_data_onboarder.Base.Tests.{if◌then◌else◌, Bool-cases}
use universal_data_onboarder.Base.Lists.{length}
use universal_data_onboarder.Base.Strings.{Text, ◌===◌, ===_iff, includes}
use universal_data_onboarder.Base.Dict.{Dict, get, put, has, keys}

abbrev pub IsDistinct : List Text → Type 0
IsDistinct [] = Unit
IsDistinct (x ∷ xs) = (includes xs x ≡ false) × IsDistinct xs

pub includes-append :
    (xs ys : List Text) (v : Text) → includes (xs ++ ys) v ≡ includes xs v || includes ys v
includes-append [] ys v = refl
includes-append (x ∷ xs) ys v = ground (arith, includes-append xs ys v)

pub IsDistinct-snoc :
    (xs : List Text) (x : Text) → IsDistinct xs → includes xs x ≡ false → IsDistinct (xs ++ x ∷ [])
IsDistinct-snoc [] x d h = (refl, tt)
IsDistinct-snoc (y ∷ xs) x (n, d) h = (
  ground (arith, includes-append xs (x ∷ []) y, ===_iff x y, ===_iff y x),
  IsDistinct-snoc xs x d (ground arith),
)

pub IsDistinct-middle :
    (xs : List Text) (x : Text) (ys : List Text) → IsDistinct (xs ++ x ∷ ys) → includes xs x ≡ false
IsDistinct-middle [] x ys d = refl
IsDistinct-middle (w ∷ xs) x ys (n, d) =
    ground
      (arith, IsDistinct-middle xs x ys d, includes-append xs (x ∷ ys) w, ===_iff w x, ===_iff x w)

-- The list without the first `x`.
abbrev without : Text → List Text → List Text
without x [] = []
without x (y ∷ ys) = let rest = without x ys in if y === x then ys else y ∷ rest

length-without :
    (x : Text) (ys : List Text) → includes ys x ≡ true → suc (length (without x ys)) ≡ length ys
length-without x [] h = cc
length-without x (y ∷ ys) h = ground (arith, length-without x ys)

includes-without :
    (x v : Text) (ys : List Text)
    → includes ys v ≡ true
    → (x === v) ≡ false
    → includes (without x ys) v ≡ true
includes-without x v [] h n = cc
includes-without x v (y ∷ ys) h n =
    ground (arith, includes-without x v ys, ===_iff y x, ===_iff y v, ===_iff x v)

pub length-subset :
    (xs ys : List Text)
    → IsDistinct xs
    → ((v : Text) → includes xs v ≡ true → includes ys v ≡ true)
    → length xs ≤ length ys
length-subset [] ys d sub = omega arith
length-subset (x ∷ xs) ys (n, d) sub =
    let there = sub x (ground (arith, ===_iff x x)) in
    let fewer =
      length-subset xs (without x ys) d
        (λ v h. includes-without x v ys (sub v (ground arith)) (ground (arith, ===_iff x v))) in
    omega (arith, length-without x ys there)

-- A member of the longer list that the shorter one misses makes it strictly longer.
pub length-subset_strict :
    (xs ys : List Text) (v : Text)
    → IsDistinct xs
    → ((w : Text) → includes xs w ≡ true → includes ys w ≡ true)
    → includes ys v ≡ true
    → includes xs v ≡ false
    → length xs < length ys
length-subset_strict xs ys v d sub there missing =
    let longer =
      length-subset (v ∷ xs) ys (missing, d) (λ w h. ground (arith, ===_iff v w, sub w)) in
    omega (arith, longer)

module _ {ℓ} {V : Type ℓ} where
  pub has-keys : (d : Dict V) (k : Text) → has d k ≡ includes (keys d) k
  unfolding get
  has-keys [] k = refl
  has-keys ((j, w) ∷ d) k = ground (arith, has-keys d k)

  pub keys-put :
      (d : Dict V) (k : Text) (v : V)
      → keys (put d k v) ≡ (if has d k then keys d else keys d ++ k ∷ [])
  unfolding get put
  keys-put [] k v = refl
  keys-put ((j, w) ∷ d) k v = ground (arith, keys-put d k v)

  pub IsDistinct-put :
      (d : Dict V) (k : Text) (v : V) → IsDistinct (keys d) → IsDistinct (keys (put d k v))
  IsDistinct-put d k v h = elim (Bool-cases (has d k)) [
    | inl there ↦ rw (keys-put d k v, there) h
    | inr new ↦ rw (keys-put d k v, new) (IsDistinct-snoc (keys d) k h (sym (has-keys d k) ∙ new))
  ]
