-- ===== src/Sql/Ident.antt =====
-- core/parsing/sqlDumpParser.js: the names of tables and columns.
use universal_data_onboarder.Base.{
  ℕ, Bool, true, false, ◌&&◌, ◌||◌, List, [], ◌∷◌, map, ◌==◌, filter, Text, reverse, split, trim,
  if◌then◌else◌,
}

unfoldable pub last_segment : List Text → Text
last_segment [] = []
last_segment (s ∷ []) = s
last_segment (s ∷ t ∷ r) = last_segment (t ∷ r)

starts_with : ℕ → Text → Bool
starts_with c [] = false
starts_with c (d ∷ s) = c == d

ends_with : ℕ → Text → Bool
unfolding starts_with
ends_with c s = starts_with c (reverse s)

tail_of : Text → Text
tail_of [] = []
tail_of (c ∷ s) = s

-- `s.slice(1, -1)`
unquote : Text → Text
unfolding tail_of
unquote s = reverse (tail_of (reverse (tail_of s)))

-- `s.replace(/cc/g, "c")`
undouble : ℕ → Text → Text
undouble c [] = []
undouble c (d ∷ []) = d ∷ []
undouble c (d ∷ e ∷ s) =
    let halved = c ∷ undouble c s in
    let kept = d ∷ undouble c (e ∷ s) in if c == d && c == e then halved else kept

abbrev wrapped : ℕ → ℕ → Text → Bool
wrapped open_ close s = starts_with open_ s && ends_with close s

unfoldable pub unquote_ident : Text → Text
unfolding split last_segment trim starts_with ends_with unquote undouble
unquote_ident raw =
    let ident = trim (last_segment (split b'.' (trim raw))) in
    let bare =
      if wrapped 96 96 ident || wrapped 34 34 ident || wrapped 39 39 ident
      then unquote ident
      else if wrapped b'[' b']' ident
      then unquote ident
      else ident in
    undouble 34 (undouble 96 bare)

abbrev is_named : Text → Bool
is_named [] = false
is_named (c ∷ s) = true

unfoldable pub split_columns : Text → List Text
unfolding split unquote_ident
split_columns cols = filter is_named (map unquote_ident (split b',' cols))
