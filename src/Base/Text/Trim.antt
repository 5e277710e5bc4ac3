-- ===== src/Base/Text/Trim.antt =====
-- Laws of trimming, shortening and lower-casing.
use Prim.Native.Nat.{ℕ, zero, suc, ◌+◌, ◌-◌, ◌≤◌}
use Prim.Native.Char.{Char}
use Prim.Native.String.{String, [], ◌∷◌, ◌++◌, count}
use mathlib.Core.Path.{◌≡◌, refl, ap, sym, ◌∙◌}
use mathlib.Core.Logic.{inl, inr}
use mathlib.Core.Bool.{true, false, not}
use mathlib.Core.Option.{Option, none, some}
use native.Mathlib.Omega.{arith}
use text.Mathlib.TextLemmas.{nil-append, cons-append, length-append, length-cons, length-nil}
use smolit_assistant.Base.Tests.{
  leb, leb→le, le→leb, if◌then◌else◌, Bool-cases, Option-cases, ◌>>=◌,
}
use smolit_assistant.Base.Text.{
  is_whitespace, trim_start, keep, trim_end, trim, take_chars, shorten, is_empty, all_chars,
}

-- The text is empty or begins with a character that is not white.
abbrev pub HeadClean : String → Type 0
HeadClean [] = Unit
HeadClean (c ∷ s) = is_whitespace c ≡ false

trim_start-HeadClean : (s : String) → HeadClean (trim_start s)
unfolding trim_start
trim_start-HeadClean [] = tt
trim_start-HeadClean (c ∷ s) = elim (Bool-cases (is_whitespace c)) [
  | inl white ↦ rw white (trim_start-HeadClean s)
  | inr black ↦ rw (black, if◌then◌else◌) black
]

trim_start_of_HeadClean : (s : String) → HeadClean s → trim_start s ≡ s
unfolding trim_start
trim_start_of_HeadClean [] h = refl
trim_start_of_HeadClean (c ∷ s) h = rw h

keep_of_black : (c : Char) (s : String) → is_whitespace c ≡ false → keep c s ≡ c ∷ s
unfolding keep
keep_of_black c [] h = rw h
keep_of_black c (d ∷ s) h = refl

trim_end-HeadClean : (s : String) → HeadClean s → HeadClean (trim_end s)
unfolding trim_end
trim_end-HeadClean [] h = tt
trim_end-HeadClean (c ∷ s) h = rw (keep_of_black c (trim_end s) h) h

trim_end-keep : (c : Char) (s : String) → trim_end s ≡ s → trim_end (keep c s) ≡ keep c s
unfolding trim_end keep
trim_end-keep c [] h = elim (Bool-cases (is_whitespace c)) [
  | inl white ↦ rw white
  | inr black ↦ rw (black, keep) (rw black)
]
trim_end-keep c (d ∷ s) h = ap (keep c) h

pub trim_end_idem : (s : String) → trim_end (trim_end s) ≡ trim_end s
unfolding trim_end
trim_end_idem [] = refl
trim_end_idem (c ∷ s) = trim_end-keep c (trim_end s) (trim_end_idem s)

pub trim-HeadClean : (s : String) → HeadClean (trim s)
unfolding trim
trim-HeadClean s = trim_end-HeadClean (trim_start s) (trim_start-HeadClean s)

-- Trimming twice is trimming once.
pub trim_idem : (s : String) → trim (trim s) ≡ trim s
unfolding trim
trim_idem s =
    rw (trim_start_of_HeadClean (trim_end (trim_start s)) (trim-HeadClean s))
      (trim_end_idem (trim_start s))

pub count-take_chars : (n : ℕ) (s : String) → count (take_chars n s) ≤ n
unfolding take_chars
count-take_chars zero s = rw length-nil (omega arith)
count-take_chars (suc n) [] = rw length-nil (omega arith)
count-take_chars (suc n) (c ∷ s) = rw length-cons (omega (arith, count-take_chars n s))

-- A cut text ends in the ellipsis, so its end is clean.
keep-append : (c : Char) (s : String) → keep c (s ++ "…") ≡ c ∷ (s ++ "…")
unfolding keep
keep-append c [] = rw nil-append
keep-append c (d ∷ s) = rw cons-append

trim_end-ellipsis : (s : String) → trim_end (s ++ "…") ≡ s ++ "…"
unfolding trim_end
trim_end-ellipsis [] = rw nil-append (unfold trim in refl)
trim_end-ellipsis (c ∷ s) = rw cons-append (rw (trim_end-ellipsis s) (keep-append c s))

HeadClean-cut : (n : ℕ) (s : String) → HeadClean s → HeadClean (take_chars n s ++ "…")
unfolding take_chars
HeadClean-cut zero s h = unfold trim in refl
HeadClean-cut (suc n) [] h = unfold trim in refl
HeadClean-cut (suc n) (c ∷ s) h = rw cons-append h

-- A cut text is already trimmed.
trim-cut : (n : ℕ) (s : String) → HeadClean s → trim (take_chars n s ++ "…") ≡ take_chars n s ++ "…"
unfolding trim
trim-cut n s h =
    rw (trim_start_of_HeadClean (take_chars n s ++ "…") (HeadClean-cut n s h))
      (trim_end-ellipsis (take_chars n s))

count-cut : (n : ℕ) (s : String) → count (take_chars n s ++ "…") ≤ n + 1
count-cut n s = rw length-append (omega (arith, count-take_chars n s))

-- A shortened text keeps the limit.
pub count-shorten : (limit : ℕ) (s : String) → 1 ≤ limit → count (shorten limit s) ≤ limit
unfolding shorten
count-shorten limit s h = elim (Bool-cases (leb (count s) limit)) [
  | inl short ↦ rw (short, if◌then◌else◌) (leb→le _ _ short)
  | inr long ↦ rw (long, if◌then◌else◌) (omega (arith, count-cut (limit - 1) s))
]

pub trim-shorten : (limit : ℕ) (s : String) → trim (shorten limit (trim s)) ≡ shorten limit (trim s)
unfolding shorten
trim-shorten limit s = elim (Bool-cases (leb (count (trim s)) limit)) [
  | inl short ↦ rw (short, if◌then◌else◌) (trim_idem s)
  | inr long ↦ rw (long, if◌then◌else◌) (trim-cut (limit - 1) (trim s) (trim-HeadClean s))
]

pub shorten_of_short : (limit : ℕ) (s : String) → count s ≤ limit → shorten limit s ≡ s
unfolding shorten
shorten_of_short limit s h = rw (le→leb _ _ h)

-- Trimming and shortening twice is doing it once.
pub shorten-trim_idem :
    (limit : ℕ) (s : String)
    → 1 ≤ limit
    → shorten limit (trim (shorten limit (trim s))) ≡ shorten limit (trim s)
shorten-trim_idem limit s h =
    rw (trim-shorten limit s) (shorten_of_short limit _ (count-shorten limit (trim s) h))

cut-ne-nil : (n : ℕ) (s : String) → is_empty (take_chars n s ++ "…") ≡ false
unfolding take_chars
cut-ne-nil zero s = refl
cut-ne-nil (suc n) [] = refl
cut-ne-nil (suc n) (c ∷ s) = rw cons-append

-- Shortening empties no text.
pub is_empty-shorten :
    (limit : ℕ) (s : String) → is_empty s ≡ false → is_empty (shorten limit s) ≡ false
unfolding shorten
is_empty-shorten limit s h = elim (Bool-cases (leb (count s) limit)) [
  | inl short ↦ rw (short, if◌then◌else◌) h
  | inr long ↦ rw (long, if◌then◌else◌) (cut-ne-nil (limit - 1) s)
]

-- A sanitizer that trims and then passes the text on or refuses it is idempotent.
pub trim_check_idem :
    (check : String → Option String)
    → ((t id : String) → check t ≡ some id → t ≡ id)
    → (raw : Option String)
    → (raw >>= λ s. check (trim s)) >>= (λ s. check (trim s)) ≡ (raw >>= λ s. check (trim s))
trim_check_idem check same none = refl
trim_check_idem check same (some s) = elim (Option-cases (check (trim s))) [
  | inl refused ↦ rw refused
  | inr (id, passed) ↦ rw passed (
      rw (← same (trim s) id passed, trim_idem s)
        (passed ∙ ap some (sym (same (trim s) id passed))))
]

trim_end_of_black : (s : String) → all_chars (λ c. not (is_whitespace c)) s ≡ true → trim_end s ≡ s
unfolding trim_end all_chars
trim_end_of_black [] h = refl
trim_end_of_black (c ∷ s) h =
    ap (keep c) (trim_end_of_black s (ground arith)) ∙ keep_of_black c s (ground arith)

-- A text without white characters is its own trimmed text.
pub trim_of_black : (s : String) → all_chars (λ c. not (is_whitespace c)) s ≡ true → trim s ≡ s
unfolding trim all_chars
trim_of_black [] h = refl
trim_of_black (c ∷ s) h =
    rw (trim_start_of_HeadClean (c ∷ s) (first c s h)) (trim_end_of_black (c ∷ s) h)
  where
    first :
        (c : Char) (s : String)
        → all_chars (λ c. not (is_whitespace c)) (c ∷ s) ≡ true
        → is_whitespace c ≡ false
    first c s h = ground arith
