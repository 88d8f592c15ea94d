-- ===== src/Base/Dict.antt =====
-- A JavaScript `Map`, or an object used as one: entries in the order of insertion. Setting a key
-- that is there keeps its place.
use mathlib.Core.Path.{◌≡◌, refl}
use mathlib.Core.Bool.{Bool, true, false}
use mathlib.Core.List.{List, [], ◌∷◌, map}
use mathlib.Core.Option.{Option, none, some}
use native.Mathlib.Omega.{arith}
use universal_data_onboarder.Base.Tests.{if◌then◌else◌}
use universal_data_onboarder.Base.Strings.{Text, ◌===◌, ===_iff}

abbrev pub Dict {ℓ} : Type ℓ → Type ℓ
Dict V = List (Text × V)

module _ {ℓ} {V : Type ℓ} where
  -- `m.get(k)`, `o[k]`
  unfoldable pub get : Dict V → Text → Option V
  get [] k = none
  get ((j, v) ∷ d) k = if j === k then some v else get d k

  abbrev pub is_some : Option V → Bool
  is_some none = false
  is_some (some v) = true

  -- `m.has(k)`, `k in o`
  abbrev pub has : Dict V → Text → Bool
  has d k = is_some (get d k)

  -- `m.set(k, v)`, `o[k] = v`
  unfoldable pub put : Dict V → Text → V → Dict V
  put [] k v = (k, v) ∷ []
  put ((j, w) ∷ d) k v = if j === k then (j, v) ∷ d else (j, w) ∷ put d k v

  -- `delete o[k]`
  unfoldable pub remove : Dict V → Text → Dict V
  remove [] k = []
  remove ((j, w) ∷ d) k = let rest = remove d k in if j === k then rest else (j, w) ∷ rest

  -- `[...m.keys()]`
  abbrev pub keys : Dict V → List Text
  keys d = map (λ e. e.0) d

  pub get-put :
      (d : Dict V) (k j : Text) (v : V) → get (put d k v) j ≡ (if k === j then some v else get d j)
  unfolding get put
  get-put [] k j v = refl
  get-put ((i, w) ∷ d) k j v =
      ground (arith, ===_iff k j, ===_iff i k, ===_iff i j, get-put d k j v)

  pub get-remove :
      (d : Dict V) (k j : Text) → get (remove d k) j ≡ (if k === j then none else get d j)
  unfolding get remove
  get-remove [] k j = ground arith
  get-remove ((i, w) ∷ d) k j =
      ground (arith, ===_iff k j, ===_iff i k, ===_iff i j, get-remove d k j)

pub ruleset dict_laws = (get-put, get-remove)
