-- ===== src/Base/Text.antt =====
-- Texts as the Rust code uses them: a `String` is its list of Unicode scalar values. `trim`,
-- `to_ascii_lowercase`, `chars().take(n)` and `split('.')` of the standard library.
pub mod Listed
pub mod Trim
pub mod Search
pub mod Cuts
use Prim.Native.Nat.{ℕ, zero, suc, ◌-◌}
use Prim.Native.Char.{Char, code}
use Prim.Native.String.{String, [], ◌∷◌, ◌++◌, count}
use mathlib.Core.Path.{◌≡◌, refl}
use mathlib.Core.Bool.{Bool, true, false, ◌&&◌, ◌||◌}
use mathlib.Core.List.{List}
use smolit_assistant.Base.Tests.{leb, eqb, if◌then◌else◌}

abbrev pub is_empty : String → Bool
is_empty [] = true
is_empty (c ∷ s) = false

-- `char::is_whitespace`: the code points with the Unicode property White_Space.
unfoldable pub is_whitespace : Char → Bool
is_whitespace c =
    let n = code c in
    (leb 9 n && leb n 13)
    || eqb n 32
    || eqb n 133
    || eqb n 160
    || eqb n 5760
    || (leb 8192 n && leb n 8202)
    || eqb n 8232
    || eqb n 8233
    || eqb n 8239
    || eqb n 8287
    || eqb n 12288

unfoldable pub trim_start : String → String
trim_start [] = []
trim_start (c ∷ s) = if is_whitespace c then trim_start s else c ∷ s

-- One round of `trim_end`: `c` is dropped if it is white and nothing is left behind it.
keep : Char → String → String
keep c [] = if is_whitespace c then [] else c ∷ []
keep c (d ∷ s) = c ∷ d ∷ s

unfoldable pub trim_end : String → String
unfolding keep
trim_end [] = []
trim_end (c ∷ s) = keep c (trim_end s)

unfoldable pub trim : String → String
unfolding trim_start trim_end is_whitespace
trim s = trim_end (trim_start s)

trim_test : trim "  a b\t\n" ≡ "a b"
unfolding trim
trim_test = refl

-- `chars().take(n).collect()`.
unfoldable pub take_chars : ℕ → String → String
take_chars zero s = []
take_chars (suc n) [] = []
take_chars (suc n) (c ∷ s) = c ∷ take_chars n s

-- Both truncating helpers of the core: at most `limit` characters, the last an ellipsis if the
-- text is cut.
unfoldable pub shorten : ℕ → String → String
unfolding take_chars
shorten limit t = if leb (count t) limit then t else take_chars (limit - 1) t ++ "…"

-- The lower-case partner of an ASCII capital, found by position in the alphabet.
unfoldable pub partner : String → String → Char → Char
partner [] _ c = c
partner (u ∷ us) [] c = c
partner (u ∷ us) (l ∷ ls) c = if eqb (code u) (code c) then l else partner us ls c

unfoldable pub ascii_lowercase : Char → Char
unfolding partner
ascii_lowercase c = partner "ABCDEFGHIJKLMNOPQRSTUVWXYZ" "abcdefghijklmnopqrstuvwxyz" c

unfoldable pub to_ascii_lowercase : String → String
unfolding ascii_lowercase
to_ascii_lowercase [] = []
to_ascii_lowercase (c ∷ s) = ascii_lowercase c ∷ to_ascii_lowercase s

lowercase_test : to_ascii_lowercase "Demo_ECHO-Ä" ≡ "demo_echo-Ä"
unfolding to_ascii_lowercase
lowercase_test = refl

-- Every character passes the test.
unfoldable pub all_chars : (Char → Bool) → String → Bool
all_chars p [] = true
all_chars p (c ∷ s) = p c && all_chars p s

-- `'a'..='z' | '0'..='9' | '_'`.
unfoldable pub is_id_char : Char → Bool
is_id_char c =
    let n = code c in (leb b'a' n && leb n b'z') || (leb b'0' n && leb n b'9') || eqb n b'_'

abbrev pub push_char : Char → List String → List String
push_char c List.[] = List.◌∷◌ (c ∷ []) List.[]
push_char c (List.◌∷◌ t ts) = List.◌∷◌ (c ∷ t) ts

-- `split('.')`: the pieces between the dots, at least one.
unfoldable pub split_dots : String → List String
split_dots [] = List.◌∷◌ [] List.[]
split_dots (c ∷ s) =
    let rest = split_dots s in if eqb (code c) b'.' then List.◌∷◌ [] rest else push_char c rest

split_test : split_dots "a.b" ≡ List.◌∷◌ "a" (List.◌∷◌ "b" List.[])
unfolding split_dots
split_test = refl
