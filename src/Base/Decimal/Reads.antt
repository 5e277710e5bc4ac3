-- ===== src/Base/Decimal/Reads.antt =====
-- A decimal numeral is read back by `parse::<uN>()`.
use Prim.Native.Nat.{ℕ, zero, suc, ◌+◌, ◌-◌, ◌*◌, ◌/◌, ◌%◌, ◌<◌}
use Prim.Native.Char.{Char, code}
use Prim.Native.String.{String, [], ◌∷◌}
use mathlib.Core.Path.{◌≡◌, refl, ◌∙◌}
use mathlib.Core.Logic.{◌≢◌, inl, inr}
use mathlib.Core.Bool.{Bool, true, false, ◌&&◌}
use mathlib.Core.Option.{none, some}
use native.Mathlib.Omega.{arith}
use smolit_assistant.Base.Tests.{ltb, leb, eqb, if◌then◌else◌, Bool-cases}
use smolit_assistant.Base.Text.Search.{read_digits, parse_uint, has_char}
use smolit_assistant.Base.Decimal.{digit, digits, decimal, value, value-digits}

abbrev is_digit : Char → Bool
is_digit c = leb b'0' (code c) && leb (code c) b'9'

-- All characters are digits.
abbrev Digits : String → Type 0
Digits [] = Unit
Digits (c ∷ s) = (is_digit c ≡ true) × Digits s

digit-is_digit : (d : ℕ) → is_digit (digit d) ≡ true
unfolding digit
digit-is_digit zero = refl
digit-is_digit (suc zero) = refl
digit-is_digit (suc (suc zero)) = refl
digit-is_digit (suc (suc (suc zero))) = refl
digit-is_digit (suc (suc (suc (suc zero)))) = refl
digit-is_digit (suc (suc (suc (suc (suc zero))))) = refl
digit-is_digit (suc (suc (suc (suc (suc (suc zero)))))) = refl
digit-is_digit (suc (suc (suc (suc (suc (suc (suc zero))))))) = refl
digit-is_digit (suc (suc (suc (suc (suc (suc (suc (suc zero)))))))) = refl
digit-is_digit (suc (suc (suc (suc (suc (suc (suc (suc (suc d))))))))) = refl

digits-Digits : (f n : ℕ) (out : String) → Digits out → Digits (digits f n out)
unfolding digits
digits-Digits zero n out h = h
digits-Digits (suc f) n out h = elim (Bool-cases (eqb (n / 10) 0)) [
  | inl last ↦ rw (last, if◌then◌else◌) (digit-is_digit (n % 10), h)
  | inr more ↦
      rw (more, if◌then◌else◌)
        (digits-Digits f (n / 10) (digit (n % 10) ∷ out) (digit-is_digit (n % 10), h))
]

read_digits-value : (n : ℕ) (s : String) → Digits s → read_digits n s ≡ some (value n s)
unfolding read_digits value
read_digits-value n [] h = refl
read_digits-value n (c ∷ s) (d, h) = rw d (read_digits-value (n * 10 + (code c - b'0')) s h)

value_nil : (n : ℕ) → value n [] ≡ n
unfolding value
value_nil n = refl

-- A text of digits holds no other character.
has_char-Digits :
    (k : ℕ) (s : String) → (leb b'0' k && leb k b'9') ≡ false → Digits s → has_char k s ≡ false
unfolding has_char
has_char-Digits k [] other h = refl
has_char-Digits k (c ∷ s) other (d, h) = rw (has_char-Digits k s other h) (ground arith)

digits-ne-nil : (f n : ℕ) (out : String) → out ≢ [] → digits f n out ≢ []
unfolding digits
digits-ne-nil zero n out h = h
digits-ne-nil (suc f) n out h = elim (Bool-cases (eqb (n / 10) 0)) [
  | inl last ↦ rw (last, if◌then◌else◌) (λ e. cc)
  | inr more ↦ rw (more, if◌then◌else◌) (digits-ne-nil f (n / 10) (digit (n % 10) ∷ out) (λ e. cc))
]

first_digits-ne-nil : (n : ℕ) → digits (suc n) n [] ≢ []
unfolding digits
first_digits-ne-nil n = elim (Bool-cases (eqb (n / 10) 0)) [
  | inl last ↦ rw (last, if◌then◌else◌) (λ e. cc)
  | inr more ↦ rw (more, if◌then◌else◌) (digits-ne-nil n (n / 10) (digit (n % 10) ∷ []) (λ e. cc))
]

parse_uint-Digits :
    (bound : ℕ) (s : String)
    → s ≢ []
    → Digits s
    → parse_uint bound s ≡ (if ltb (value 0 s) bound then some (value 0 s) else none)
unfolding parse_uint
parse_uint-Digits bound [] full h = absurd (full refl)
parse_uint-Digits bound (c ∷ []) full h = rw (read_digits-value 0 (c ∷ []) h)
parse_uint-Digits bound (c ∷ d ∷ s) full (e, h) =
    let unsigned : eqb (code c) b'+' ≡ false = ground arith in
    rw (unsigned, if◌then◌else◌) (rw (read_digits-value 0 (c ∷ d ∷ s) (e, h)))

decimal_lem : (n : ℕ) → decimal n ≡ digits (suc n) n []
unfolding decimal
decimal_lem n = let e : n + 1 ≡ suc n = omega arith in rw e refl

-- Reading the numeral of a number that the type holds gives the number.
pub parse_uint-decimal : (bound n : ℕ) → n < bound → parse_uint bound (decimal n) ≡ some n
parse_uint-decimal bound n small = rw (decimal_lem n) (
    parse_uint-Digits bound (digits (suc n) n []) (first_digits-ne-nil n)
      (digits-Digits (suc n) n [] tt)
    ∙ rw (value-digits (suc n) n [] (omega arith)) (ground (arith, value_nil n)))

pub has_char-decimal :
    (k n : ℕ) → (leb b'0' k && leb k b'9') ≡ false → has_char k (decimal n) ≡ false
has_char-decimal k n other =
    rw (decimal_lem n)
      (has_char-Digits k (digits (suc n) n []) other (digits-Digits (suc n) n [] tt))
