-- ===== src/Base/Decimal.antt =====
-- `format!("{n:06}")` of the standard library: decimal digits, filled with zeros to six places.
pub mod Reads
use Prim.Native.Nat.{ℕ, zero, suc, ◌+◌, ◌-◌, ◌*◌, ◌/◌, ◌%◌, ◌<◌}
use Prim.Native.Char.{Char, code}
use Prim.Native.String.{String, [], ◌∷◌, count}
use mathlib.Core.Path.{◌≡◌, refl, ap, sym, ◌∙◌}
use mathlib.Core.Logic.{inl, inr}
use native.Mathlib.Omega.{arith}
use smolit_assistant.Base.Tests.{eqb, if◌then◌else◌, Bool-cases}

digit : ℕ → Char
digit zero = "0"
digit (suc zero) = "1"
digit (suc (suc zero)) = "2"
digit (suc (suc (suc zero))) = "3"
digit (suc (suc (suc (suc zero)))) = "4"
digit (suc (suc (suc (suc (suc zero))))) = "5"
digit (suc (suc (suc (suc (suc (suc zero)))))) = "6"
digit (suc (suc (suc (suc (suc (suc (suc zero))))))) = "7"
digit (suc (suc (suc (suc (suc (suc (suc (suc zero)))))))) = "8"
digit _ = "9"

-- The digits of `n` in front of `out`; a number has fewer digits than its value plus one, so the
-- fuel `n + 1` is enough.
digits : ℕ → ℕ → String → String
digits zero n out = out
digits (suc f) n out =
    let more = digits f (n / 10) (digit (n % 10) ∷ out) in
    if eqb (n / 10) 0 then digit (n % 10) ∷ out else more

zeros : ℕ → String → String
zeros zero s = s
zeros (suc k) s = "0" ∷ zeros k s

unfoldable pub decimal : ℕ → String
unfolding digits digit
decimal n = digits (n + 1) n []

unfoldable pub decimal06 : ℕ → String
unfolding decimal zeros
decimal06 n = let s = decimal n in zeros (6 - count s) s

decimal06_test : decimal06 40 ≡ "000040"
unfolding decimal06
decimal06_test = refl

decimal06_long : decimal06 12345678 ≡ "12345678"
unfolding decimal06
decimal06_long = refl

-- The number that a text of digits spells behind `n`.
pub value : ℕ → String → ℕ
value n [] = n
value n (c ∷ s) = value (n * 10 + (code c - b'0')) s

value-digit : (d n : ℕ) (s : String) → d < 10 → value n (digit d ∷ s) ≡ value (n * 10 + d) s
unfolding value digit
value-digit zero n s h = refl
value-digit (suc zero) n s h = refl
value-digit (suc (suc zero)) n s h = refl
value-digit (suc (suc (suc zero))) n s h = refl
value-digit (suc (suc (suc (suc zero)))) n s h = refl
value-digit (suc (suc (suc (suc (suc zero))))) n s h = refl
value-digit (suc (suc (suc (suc (suc (suc zero)))))) n s h = refl
value-digit (suc (suc (suc (suc (suc (suc (suc zero))))))) n s h = refl
value-digit (suc (suc (suc (suc (suc (suc (suc (suc zero)))))))) n s h = refl
value-digit (suc (suc (suc (suc (suc (suc (suc (suc (suc zero))))))))) n s h = refl
value-digit (suc (suc (suc (suc (suc (suc (suc (suc (suc (suc d)))))))))) n s h =
    absurd (omega arith)

-- With enough fuel the digits spell the number.
value-digits : (f n : ℕ) (out : String) → n < f → value 0 (digits f n out) ≡ value n out
unfolding digits
value-digits zero n out h = elim h [ ]
value-digits (suc f) n out h = elim (Bool-cases (eqb (n / 10) 0)) [
  | inl last ↦
      rw (last, if◌then◌else◌)
        (value-digit (n % 10) 0 out (omega arith) ∙ ap (λ k. value k out) (ground arith))
  | inr more ↦
      rw (more, if◌then◌else◌)
        (value-digits f (n / 10) (digit (n % 10) ∷ out) (ground arith)
          ∙ value-digit (n % 10) (n / 10) out (omega arith)
          ∙ ap (λ k. value k out) (omega arith))
]

value-zeros : (k : ℕ) (s : String) → value 0 (zeros k s) ≡ value 0 s
unfolding value zeros
value-zeros zero s = refl
value-zeros (suc k) s = value-zeros k s

-- Reading a padded numeral gives the number back, so distinct numbers have distinct numerals.
pub value-decimal06 : (n : ℕ) → value 0 (decimal06 n) ≡ n
unfolding decimal06 decimal value
value-decimal06 n =
    value-zeros (6 - count (digits (n + 1) n [])) (digits (n + 1) n [])
    ∙ value-digits (n + 1) n [] (omega arith)

pub decimal06_inj : (m n : ℕ) → decimal06 m ≡ decimal06 n → m ≡ n
decimal06_inj m n e = sym (value-decimal06 m) ∙ ap (value 0) e ∙ value-decimal06 n
