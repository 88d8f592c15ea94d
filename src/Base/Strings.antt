-- ===== src/Base/Strings.antt =====
-- Text as the list of its UTF-16 code units, compared as `===` compares strings.
use Prim.Native.Nat.{ℕ, ◌+◌}
use Prim.Native.Char.{code}
use Prim.Native.String.{String}
use mathlib.Core.Path.{◌≡◌, refl}
use mathlib.Core.Logic.{◌↔◌}
use mathlib.Core.Bool.{Bool, true, false, ◌&&◌, ◌||◌}
use mathlib.Core.List.{List, [], ◌∷◌, ◌++◌, reverse}
use native.Mathlib.Omega.{arith}
use universal_data_onboarder.Base.Tests.{leb, ◌==◌, if◌then◌else◌}
use universal_data_onboarder.Base.Lists.{any}

abbrev pub Text : Type 0
Text = List ℕ

-- A literal; its code points are its code units as long as it is ASCII.
abbrev pub codes : String → Text
codes String.[] = []
codes (String.◌∷◌ c s) = code c ∷ codes s

infix 50 ◌===◌
unfoldable pub ◌===◌ : Text → Text → Bool
[] === [] = true
(c ∷ s) === (d ∷ t) = c == d && s === t
_ === _ = false

===-refl : (s : Text) → (s === s) ≡ true
unfolding ◌===◌
===-refl [] = refl
===-refl (c ∷ s) = ground (arith, ===-refl s)

===-sound : (s t : Text) → (s === t) ≡ true → s ≡ t
unfolding ◌===◌
===-sound [] [] h = refl
===-sound (c ∷ s) (d ∷ t) h = ground (arith, ===-sound s t)
===-sound [] (d ∷ t) h = cc
===-sound (c ∷ s) [] h = cc

===-complete : (s t : Text) → s ≡ t → (s === t) ≡ true
===-complete s t e = rw (← e) (===-refl s)

pub ===_iff : (s t : Text) → ((s === t) ≡ true) ↔ (s ≡ t)
===_iff s t = (===-sound s t, ===-complete s t)

-- `xs.includes(s)`.
abbrev pub includes : List Text → Text → Bool
includes xs s = any (λ x. x === s) xs

-- `set.add(x)`, in the order of insertion.
unfoldable pub add_new : List Text → Text → List Text
unfolding ◌===◌
add_new xs x = if includes xs x then xs else xs ++ x ∷ []

-- `String.prototype.toLowerCase`, on the ASCII letters.
unfoldable pub lower : ℕ → ℕ
lower c = if leb b'A' c && leb c b'Z' then c + 32 else c

-- The white space of the pattern `\s` and of `trim`: the ASCII ones, NBSP, BOM and the Unicode
-- spaces and line ends.
unfoldable pub is_space : ℕ → Bool
is_space c =
    (leb 9 c && leb c 13)
    || c == 32
    || c == 160
    || c == 0x1680
    || (leb 0x2000 c && leb c 0x200a)
    || c == 0x2028
    || c == 0x2029
    || c == 0x202f
    || c == 0x205f
    || c == 0x3000
    || c == 0xfeff

unfoldable pub is_digit : ℕ → Bool
is_digit c = leb b'0' c && leb c b'9'

unfoldable pub trim_start : Text → Text
trim_start [] = []
trim_start (c ∷ s) = let rest = trim_start s in if is_space c then rest else c ∷ s

-- `s.trim()`
unfoldable pub trim : Text → Text
unfolding trim_start is_space
trim s = reverse (trim_start (reverse (trim_start s)))

-- `s.split(sep)` for a separator of one code unit; the first argument is the piece being read.
split_from : Text → ℕ → Text → List Text
split_from piece sep [] = piece ∷ []
split_from piece sep (c ∷ s) =
    let next = piece ∷ split_from [] sep s in
    let longer = split_from (piece ++ c ∷ []) sep s in if c == sep then next else longer

unfoldable pub split : ℕ → Text → List Text
unfolding split_from
split sep s = split_from [] sep s
