-- ===== src/Base/Hex.antt =====
-- `format!("{n:0Wx}")` of the standard library: lower-case hexadecimal digits, filled with zeros to
-- `W` places.
pub mod Shape
use Prim.Native.Nat.{ℕ, zero, suc, ◌+◌, ◌-◌, ◌/◌, ◌%◌}
use Prim.Native.Char.{Char}
use Prim.Native.String.{String, [], ◌∷◌, count}
use mathlib.Core.Path.{◌≡◌, refl}
use smolit_assistant.Base.Tests.{eqb, if◌then◌else◌}

unfoldable pub hex_digit : ℕ → Char
hex_digit zero = "0"
hex_digit (suc zero) = "1"
hex_digit (suc (suc zero)) = "2"
hex_digit (suc (suc (suc zero))) = "3"
hex_digit (suc (suc (suc (suc zero)))) = "4"
hex_digit (suc (suc (suc (suc (suc zero))))) = "5"
hex_digit (suc (suc (suc (suc (suc (suc zero)))))) = "6"
hex_digit (suc (suc (suc (suc (suc (suc (suc zero))))))) = "7"
hex_digit (suc (suc (suc (suc (suc (suc (suc (suc zero)))))))) = "8"
hex_digit (suc (suc (suc (suc (suc (suc (suc (suc (suc zero))))))))) = "9"
hex_digit (suc (suc (suc (suc (suc (suc (suc (suc (suc (suc zero)))))))))) = "a"
hex_digit (suc (suc (suc (suc (suc (suc (suc (suc (suc (suc (suc zero))))))))))) = "b"
hex_digit (suc (suc (suc (suc (suc (suc (suc (suc (suc (suc (suc (suc zero)))))))))))) = "c"
hex_digit (suc (suc (suc (suc (suc (suc (suc (suc (suc (suc (suc (suc (suc zero))))))))))))) = "d"
hex_digit (suc (suc (suc (suc (suc (suc (suc (suc (suc (suc (suc (suc (suc (suc zero)))))))))))))) =
    "e"
hex_digit _ = "f"

-- The digits of `n` in front of `out`; the fuel `n + 1` is enough.
hex_digits : ℕ → ℕ → String → String
hex_digits zero n out = out
hex_digits (suc f) n out =
    let more = hex_digits f (n / 16) (hex_digit (n % 16) ∷ out) in
    if eqb (n / 16) 0 then hex_digit (n % 16) ∷ out else more

hex_zeros : ℕ → String → String
hex_zeros zero s = s
hex_zeros (suc k) s = "0" ∷ hex_zeros k s

unfoldable pub hex_padded : ℕ → ℕ → String
unfolding hex_digits hex_digit hex_zeros
hex_padded w n = let s = hex_digits (n + 1) n [] in hex_zeros (w - count s) s

hex_padded_test : hex_padded 6 48879 ≡ "00beef"
unfolding hex_padded
hex_padded_test = refl
