-- ===== src/Base/Text/Search.antt =====
-- `contains`, `strip_prefix`, `strip_suffix`, `split`, `find` and `rfind` of the standard library, on
-- the characters of a text, and `parse::<uN>()`.
use Prim.Native.Nat.{ℕ, ◌+◌, ◌-◌, ◌*◌, ◌<◌}
use Prim.Native.Char.{code}
use Prim.Native.String.{String, [], ◌∷◌}
use mathlib.Core.Path.{◌≡◌, refl}
use mathlib.Core.Bool.{Bool, false, ◌&&◌, ◌||◌}
use mathlib.Core.Option.{Option, none, some}
use mathlib.Core.List.{List}
use native.Mathlib.Omega.{arith}
use text.Mathlib.Text.{find?}
use smolit_assistant.Base.Tests.{leb, ltb, eqb, if◌then◌else◌, is_some, ◌>>=◌}
use smolit_assistant.Base.Text.{push_char}

abbrev pub contains : String → String → Bool
contains s t = is_some (find? s t)

-- What follows the prefix `p`, if the text begins with it.
unfoldable pub strip_prefix : String → String → Option String
strip_prefix [] s = some s
strip_prefix (p ∷ ps) [] = none
strip_prefix (p ∷ ps) (c ∷ s) =
    let rest = strip_prefix ps s in if eqb (code p) (code c) then rest else none

-- `strip_suffix(c)` for one character.
unfoldable pub strip_last : ℕ → String → Option String
strip_last k [] = none
strip_last k (c ∷ []) = if eqb (code c) k then some [] else none
strip_last k (c ∷ d ∷ s) = elim (strip_last k (d ∷ s)) [ none ↦ none | some t ↦ some (c ∷ t) ]

-- `split(k)`: the pieces between the characters `k`, at least one.
unfoldable pub split : ℕ → String → List String
split k [] = List.◌∷◌ [] List.[]
split k (c ∷ s) =
    let rest = split k s in if eqb (code c) k then List.◌∷◌ [] rest else push_char c rest

-- `find(k)`: the text before the first `k`, and the text from it on.
unfoldable pub cut_first : ℕ → String → Option (String × String)
cut_first k [] = none
cut_first k (c ∷ s) =
    if eqb (code c) k
    then some ([], c ∷ s)
    else elim (cut_first k s) [ none ↦ none | some (a, b) ↦ some (c ∷ a, b) ]

-- `rfind(k)`: the text before the last `k`, and the text behind it.
unfoldable pub cut_last : ℕ → String → Option (String × String)
cut_last k [] = none
cut_last k (c ∷ s) = elim (cut_last k s) [
  | some (a, b) ↦ some (c ∷ a, b)
  | none ↦ if eqb (code c) k then some ([], s) else none
]

-- `split_once(k)`.
unfoldable pub split_once : ℕ → String → Option (String × String)
split_once k [] = none
split_once k (c ∷ s) =
    if eqb (code c) k
    then some ([], s)
    else elim (split_once k s) [ none ↦ none | some (a, b) ↦ some (c ∷ a, b) ]

-- The value of the decimal digits behind `n`.
unfoldable pub read_digits : ℕ → String → Option ℕ
read_digits n [] = some n
read_digits n (c ∷ s) =
    let rest = read_digits (n * 10 + (code c - b'0')) s in
    if leb b'0' (code c) && leb (code c) b'9' then rest else none

abbrev fits : ℕ → ℕ → Option ℕ
fits bound n = if ltb n bound then some n else none

-- `parse::<uN>()` with `bound` the first number that the type does not hold: an optional plus sign
-- and one or more digits.
unfoldable pub parse_uint : ℕ → String → Option ℕ
unfolding read_digits
parse_uint bound [] = none
parse_uint bound (c ∷ []) = read_digits 0 (c ∷ []) >>= fits bound
parse_uint bound (c ∷ d ∷ s) =
    (if eqb (code c) b'+' then read_digits 0 (d ∷ s) else read_digits 0 (c ∷ d ∷ s)) >>= fits bound

parse_test : parse_uint 65536 "08788" ≡ some 8788
unfolding parse_uint
parse_test = refl

parse_overflow : parse_uint 65536 "65536" ≡ none
unfolding parse_uint
parse_overflow = refl

cut_test : cut_last b':' "::1:80" ≡ some ("::1", "80")
unfolding cut_last
cut_test = refl

pub fits-lt : (bound : ℕ) (o : Option ℕ) {n : ℕ} → (o >>= fits bound) ≡ some n → n < bound
fits-lt bound none h = cc
fits-lt bound (some m) h = ground arith

-- A number that is read lies below the bound.
pub parse_uint-lt : (bound : ℕ) (s : String) {n : ℕ} → parse_uint bound s ≡ some n → n < bound
unfolding parse_uint
parse_uint-lt bound [] h = cc
parse_uint-lt bound (c ∷ []) h = fits-lt bound (read_digits 0 (c ∷ [])) h
parse_uint-lt bound (c ∷ d ∷ s) h =
    fits-lt bound (if eqb (code c) b'+' then read_digits 0 (d ∷ s) else read_digits 0 (c ∷ d ∷ s)) h

-- `contains(k)` for a character.
unfoldable pub has_char : ℕ → String → Bool
has_char k [] = false
has_char k (c ∷ s) = eqb (code c) k || has_char k s
