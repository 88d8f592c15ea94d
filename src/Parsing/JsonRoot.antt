-- ===== src/Parsing/JsonRoot.antt =====
-- core/parsing/streamingParser.js: `assertJsonRootIsArray`, a read of a file's first bytes.
use universal_data_onboarder.Base.{
  ℕ, zero, suc, ◌≡◌, refl, true, List, [], ◌∷◌, ◌==◌, is_space, arith, Bool-cases, inl, inr,
  if◌then◌else◌,
}
use universal_data_onboarder.Base.Result.{Result, ok, err}

-- The errors of `assertJsonRootIsArray`.
pub data RootError : Type 0 where
  empty_file object_root too_much_space : RootError
  unexpected : ℕ → RootError

abbrev pub max_leading_whitespace : ℕ
max_leading_whitespace = 100

-- The loop over `pos`, with the positions left; the list is the file from `pos`.
root_from : ℕ → List ℕ → Result RootError (Unit {0})
unfolding is_space
root_from zero bytes = err too_much_space
root_from (suc left) [] = err empty_file
root_from (suc left) (b ∷ bytes) =
    let later = root_from left bytes in
    if b == b'['
    then ok tt
    else if is_space b
    then later
    else if b == b'{'
    then err object_root
    else err (unexpected b)

unfoldable pub assert_json_root_is_array : List ℕ → Result RootError (Unit {0})
unfolding root_from
assert_json_root_is_array bytes = root_from max_leading_whitespace bytes

-- The file starts with fewer than `n` white spaces, and an opening bracket behind them.
pub data OpensArray : ℕ → List ℕ → Type 0 where
  bracket : {n : ℕ} {bytes : List ℕ} → OpensArray (suc n) (b'[' ∷ bytes)
  space :
      {n : ℕ} {b : ℕ} {bytes : List ℕ}
      → is_space b ≡ true
      → OpensArray n bytes
      → OpensArray (suc n) (b ∷ bytes)

OpensArray-ok : {n : ℕ} {bytes : List ℕ} → OpensArray n bytes → root_from n bytes ≡ ok tt
unfolding root_from
OpensArray-ok bracket = refl
OpensArray-ok (space {n} {b} {bytes} s o) = elim (Bool-cases (b == b'[')) [
  | inl e ↦ rw e
  | inr e ↦ rw (e, s) (OpensArray-ok o)
]

ok-OpensArray : (n : ℕ) (bytes : List ℕ) → root_from n bytes ≡ ok tt → OpensArray n bytes
unfolding root_from
ok-OpensArray zero bytes h = absurd (cc h)
ok-OpensArray (suc n) [] h = absurd (cc h)
ok-OpensArray (suc n) (b ∷ bytes) h = elim (Bool-cases (b == b'[')) [
  | inl e ↦ (let e' : b ≡ b'[' = ground arith in rw e' bracket)
  | inr e ↦ elim (Bool-cases (is_space b)) [
    | inl s ↦ space s (ok-OpensArray n bytes (rw (e, s) at h))
    | inr s ↦ elim (Bool-cases (b == b'{')) [
      | inl o ↦ absurd (cc (rw (e, s, o) at h))
      | inr o ↦ absurd (cc (rw (e, s, o) at h))
    ]
  ]
]

-- The check passes exactly for the files that open with an array, behind at most 99 spaces.
pub assert_json_root_is_array_iff :
    (bytes : List ℕ)
    → ((assert_json_root_is_array bytes ≡ ok tt) → OpensArray max_leading_whitespace bytes)
      × (OpensArray max_leading_whitespace bytes → assert_json_root_is_array bytes ≡ ok tt)
unfolding assert_json_root_is_array
assert_json_root_is_array_iff bytes = (ok-OpensArray max_leading_whitespace bytes, OpensArray-ok)

-- A file with a UTF-8 byte order mark is refused, whatever is behind it.
pub byte_order_mark_refused :
    (bytes : List ℕ)
    → assert_json_root_is_array (0xEF ∷ 0xBB ∷ 0xBF ∷ bytes) ≡ err (unexpected 0xEF)
unfolding assert_json_root_is_array
byte_order_mark_refused bytes = refl
