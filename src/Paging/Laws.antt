-- ===== src/Paging/Laws.antt =====
-- The pages of a listing together.
use universal_data_onboarder.Base.{
  ◌≡◌, refl, sym, ap, ◌∙◌, ℕ, zero, suc, ◌+◌, ◌-◌, ◌*◌, ◌≤◌, List, [], ◌∷◌, ◌++◌, Option, none,
  some, length, take, drop, length-take, arith, ℤ, pos, negsuc,
}
use native.Mathlib.Nat.{suc-mul}
use universal_data_onboarder.Paging.{at_least_one, numeric_limit, numeric_page, page_items, page_of}

limit_bounds :
    (cap : ℕ) (limit : Option ℤ)
    → 1 ≤ cap
    → (1 ≤ numeric_limit cap limit) × (numeric_limit cap limit ≤ cap)
unfolding numeric_limit at_least_one
limit_bounds cap none room = (omega (arith, room), omega (arith, room))
limit_bounds cap (some (pos zero)) room = (omega (arith, room), omega (arith, room))
limit_bounds cap (some (pos (suc n))) room = (omega (arith, room), omega (arith, room))
limit_bounds cap (some (negsuc n)) room = (omega (arith, room), omega (arith, room))

module _ {ℓ} {A : Type ℓ} where
  -- The items that the requests for the pages from 1 to `n` are answered with.
  abbrev pub pages_up_to : ℕ → List A → Option ℤ → ℕ → List A
  pages_up_to cap found limit zero = []
  pages_up_to cap found limit (suc n) =
      pages_up_to cap found limit n ++ (page_of cap found (some (pos (suc n))) limit).items

  take-nil : (n : ℕ) → take {A = A} n [] ≡ []
  take-nil zero = refl
  take-nil (suc n) = refl

  take-take-drop : (m n : ℕ) (xs : List A) → take m xs ++ take n (drop m xs) ≡ take (m + n) xs
  take-take-drop zero n xs = ap (λ k. take k xs) (omega arith)
  take-take-drop (suc m) n [] = take-nil n ∙ sym (take-nil (suc m + n))
  take-take-drop (suc m) n (x ∷ xs) =
      let same : suc (m + n) ≡ suc m + n = omega arith in
      ap (λ ys. x ∷ ys) (take-take-drop m n xs) ∙ ap (λ k. take k (x ∷ xs)) same

  pages_take :
      (cap : ℕ) (found : List A) (limit : Option ℤ) (n : ℕ)
      → pages_up_to cap found limit n ≡ take (n * numeric_limit cap limit) found
  unfolding page_of page_items numeric_page at_least_one
  pages_take cap found limit zero =
      let nothing : 0 ≡ 0 * numeric_limit cap limit = omega arith in ap (λ k. take k found) nothing
  pages_take cap found limit (suc n) =
      let l = numeric_limit cap limit in
      let one_less : suc n - 1 ≡ n = omega arith in
      let before : (suc n - 1) * l ≡ n * l = ap (λ k. k * l) one_less in
      let sum : n * l + l ≡ suc n * l = sym (suc-mul n l) in
      rw (pages_take cap found limit n, before) (take-take-drop (n * l) l found)
      ∙ ap (λ k. take k found) sum

  take-all : (n : ℕ) (xs : List A) → length xs ≤ n → take n xs ≡ xs
  take-all zero [] h = refl
  take-all (suc n) [] h = refl
  take-all zero (x ∷ xs) h = absurd (omega (arith, h))
  take-all (suc n) (x ∷ xs) h = ap (λ ys. x ∷ ys) (take-all n xs (omega (arith, h)))

  -- A page holds at most `limit` items, which is at least 1 and at most the cap, whatever the
  -- request says; and the answers to the requests for page 1, page 2 and so on, with the same
  -- limit, are together and in this order the whole listing, once they are as many as it needs.
  pub pages_whole :
      (cap : ℕ) (found : List A) (page limit : Option ℤ) (n : ℕ)
      → 1 ≤ cap
      → length found ≤ n * numeric_limit cap limit
      → (1 ≤ (page_of cap found page limit).limit)
        × ((page_of cap found page limit).limit ≤ cap)
        × (length (page_of cap found page limit).items ≤ (page_of cap found page limit).limit)
        × (pages_up_to cap found limit n ≡ found)
  unfolding page_of page_items numeric_limit at_least_one
  pages_whole cap found page limit n some_room enough =
      let l = numeric_limit cap limit in
      let bounds = limit_bounds cap limit some_room in
      (
        bounds.0,
        bounds.1,
        length-take l (drop ((numeric_page page - 1) * l) found),
        pages_take cap found limit n ∙ take-all (n * l) found enough,
      )
