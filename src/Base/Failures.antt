-- ===== src/Base/Failures.antt =====
-- `anyhow::Result`: an error is the list of its messages, the outermost first.
use Prim.Native.String
use Prim.Native.String.{String}
use mathlib.Core.Option.{Option, none, some}
use mathlib.Core.List.{List, [], ◌∷◌}

pub data Result {ℓ} (A : Type ℓ) : Type ℓ where
  ok : A → Result A
  err : List String → Result A

abbrev pub and_then {ℓ κ} : {A : Type ℓ} {B : Type κ} → Result A → (A → Result B) → Result B
and_then (ok a) f = f a
and_then (err e) f = err e

-- `bail!(message)`.
abbrev pub bail {ℓ} : {A : Type ℓ} → String → Result A
bail message = err (message ∷ [])

-- `context(message)` on an error.
abbrev pub context {ℓ} : {A : Type ℓ} → String → Result A → Result A
context message (ok a) = ok a
context message (err e) = err (message ∷ e)

-- `context(message)` on an option.
abbrev pub required {ℓ} : {A : Type ℓ} → String → Option A → Result A
required message none = bail message
required message (some a) = ok a

-- The alternate form `{:#}` of an error: its messages joined by colons.
unfoldable pub display_error : List String → String
display_error [] = ""
display_error (m ∷ []) = m
display_error (m ∷ n ∷ ms) = String.◌++◌ m (String.◌++◌ ": " (display_error (n ∷ ms)))
