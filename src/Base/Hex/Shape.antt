-- ===== src/Base/Hex/Shape.antt =====
-- The shape of hexadecimal numerals: their characters and their length.
use Prim.Native.Nat.{ℕ, zero, suc, ◌+◌, ◌-◌, ◌*◌, ◌/◌, ◌%◌, ◌<◌, ◌≤◌}
use Prim.Native.Char.{Char, len_utf8}
use Prim.Native.String.len
use Prim.Native.String.{String, [], ◌∷◌, ◌++◌, count, len}
use mathlib.Core.Path.{◌≡◌, refl, sym, ◌∙◌}
use mathlib.Core.Logic.{inl, inr}
use mathlib.Core.Bool.{Bool, true, not, ◌&&◌}
use native.Mathlib.Omega.{arith}
use text.Mathlib.TextLemmas.{length-cons, length-nil, nil-append, cons-append}
use smolit_assistant.Base.Tests.{eqb, Bool-cases}
use smolit_assistant.Base.Text.{is_whitespace, is_id_char, all_chars, trim}
use smolit_assistant.Base.Text.Trim.{trim_of_black}
use smolit_assistant.Base.Hex.{hex_digit, hex_digits, hex_zeros, hex_padded}

-- A character of an identifier, of one byte, and not white.
unfoldable pub plain : Char → Bool
plain c = is_id_char c && (not (is_whitespace c) && eqb (len_utf8 c) 1)

hex_digit-plain : (d : ℕ) → plain (hex_digit d) ≡ true
unfolding plain hex_digit is_id_char is_whitespace
hex_digit-plain zero = refl
hex_digit-plain (suc zero) = refl
hex_digit-plain (suc (suc zero)) = refl
hex_digit-plain (suc (suc (suc zero))) = refl
hex_digit-plain (suc (suc (suc (suc zero)))) = refl
hex_digit-plain (suc (suc (suc (suc (suc zero))))) = refl
hex_digit-plain (suc (suc (suc (suc (suc (suc zero)))))) = refl
hex_digit-plain (suc (suc (suc (suc (suc (suc (suc zero))))))) = refl
hex_digit-plain (suc (suc (suc (suc (suc (suc (suc (suc zero)))))))) = refl
hex_digit-plain (suc (suc (suc (suc (suc (suc (suc (suc (suc zero))))))))) = refl
hex_digit-plain (suc (suc (suc (suc (suc (suc (suc (suc (suc (suc zero)))))))))) = refl
hex_digit-plain (suc (suc (suc (suc (suc (suc (suc (suc (suc (suc (suc zero))))))))))) = refl
hex_digit-plain (suc (suc (suc (suc (suc (suc (suc (suc (suc (suc (suc (suc zero)))))))))))) = refl
hex_digit-plain (suc (suc (suc (suc (suc (suc (suc (suc (suc (suc (suc (suc (suc zero))))))))))))) =
    refl
hex_digit-plain
      (suc (suc (suc (suc (suc (suc (suc (suc (suc (suc (suc (suc (suc (suc zero)))))))))))))) =
    refl
hex_digit-plain
      (suc (suc (suc (suc (suc (suc (suc (suc (suc (suc (suc (suc (suc (suc (suc d))))))))))))))) =
    refl

hex_digits-plain :
    (f n : ℕ) (out : String)
    → all_chars plain out ≡ true
    → all_chars plain (hex_digits f n out) ≡ true
unfolding hex_digits all_chars
hex_digits-plain zero n out h = h
hex_digits-plain (suc f) n out h = elim (Bool-cases (eqb (n / 16) 0)) [
  | inl last ↦ rw last (rw (hex_digit-plain (n % 16)) h)
  | inr more ↦
      rw more
        (hex_digits-plain f (n / 16) (hex_digit (n % 16) ∷ out) (rw (hex_digit-plain (n % 16)) h))
]

hex_zeros-plain :
    (k : ℕ) (s : String) → all_chars plain s ≡ true → all_chars plain (hex_zeros k s) ≡ true
unfolding hex_zeros all_chars plain is_id_char is_whitespace
hex_zeros-plain zero s h = h
hex_zeros-plain (suc k) s h = hex_zeros-plain k s h

pub hex_padded-plain : (w n : ℕ) → all_chars plain (hex_padded w n) ≡ true
unfolding hex_padded all_chars
hex_padded-plain w n = hex_zeros-plain _ _ (hex_digits-plain (n + 1) n [] refl)

count-hex_zeros : (k : ℕ) (s : String) → count (hex_zeros k s) ≡ k + count s
unfolding hex_zeros
count-hex_zeros zero s = omega arith
count-hex_zeros (suc k) s = rw length-cons (omega (arith, count-hex_zeros k s))

-- 16 to the power `k`, by recursion.
unfoldable pub places : ℕ → ℕ
places zero = 1
places (suc k) = 16 * places k

shorter : (n p : ℕ) → n < 16 * p → n / 16 < p
shorter n p h = omega arith

count-hex_digits :
    (f n k : ℕ) (out : String) → n < places (suc k) → count (hex_digits f n out) ≤ suc k + count out
unfolding hex_digits places
count-hex_digits zero n k out h = omega arith
count-hex_digits (suc f) n zero out h = elim (Bool-cases (eqb (n / 16) 0)) [
  | inl last ↦ rw last (rw length-cons (omega arith))
  | inr more ↦ absurd (ground arith)
]
count-hex_digits (suc f) n (suc k) out h = elim (Bool-cases (eqb (n / 16) 0)) [
  | inl last ↦ rw last (rw length-cons (omega arith))
  | inr more ↦ rw more (
      omega (
        arith,
        count-hex_digits f (n / 16) k (hex_digit (n % 16) ∷ out) (shorter n (places (suc k)) h),
        length-cons (hex_digit (n % 16)) out,
      ))
]

-- At least `w` characters, and not more than `k` if `n` has at most `k` digits.
pub count-hex_padded :
    (w n k : ℕ)
    → n < places (suc k)
    → w ≤ suc k
    → (w ≤ count (hex_padded w n)) × (count (hex_padded w n) ≤ suc k)
unfolding hex_padded
count-hex_padded w n k h small =
    rw (count-hex_zeros (w - count (hex_digits (n + 1) n [])) (hex_digits (n + 1) n []))
      (omega arith, omega (arith, count-hex_digits (n + 1) n k [] h, length-nil))

pub len_of_plain : (s : String) → all_chars plain s ≡ true → len s ≡ count s
unfolding all_chars plain
len_of_plain [] h = len.nil ∙ sym length-nil
len_of_plain (c ∷ s) h = len.cons c s ∙ rw length-cons (ground (arith, len_of_plain s))

pub trim_of_plain : (s : String) → all_chars plain s ≡ true → trim s ≡ s
unfolding all_chars plain
trim_of_plain s h = trim_of_black s (blacks s h)
  where
    blacks :
        (s : String) → all_chars plain s ≡ true → all_chars (λ c. not (is_whitespace c)) s ≡ true
    blacks [] h = refl
    blacks (c ∷ s) h = ground (arith, blacks s)

pub id_of_plain : (s : String) → all_chars plain s ≡ true → all_chars is_id_char s ≡ true
unfolding all_chars plain
id_of_plain [] h = refl
id_of_plain (c ∷ s) h = ground (arith, id_of_plain s)

pub all_chars-append :
    (p : Char → Bool) (s t : String)
    → all_chars p s ≡ true
    → all_chars p t ≡ true
    → all_chars p (s ++ t) ≡ true
unfolding all_chars
all_chars-append p [] t h k = rw nil-append k
all_chars-append p (c ∷ s) t h k = rw cons-append (ground (arith, all_chars-append p s t))
