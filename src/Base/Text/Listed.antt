-- ===== src/Base/Text/Listed.antt =====
-- Whitelists: `iter().any(|k| *k == n)` over a list of texts.
use Prim.Native.String.{String}
use mathlib.Core.Path.{◌≡◌, refl}
use mathlib.Core.Logic.{◌↔◌, inl, inr}
use mathlib.Core.Bool.{Bool, true, false, ◌||◌}
use mathlib.Core.Option.{Option, none, some}
use mathlib.Core.List.{List, [], ◌∷◌}
use text.Mathlib.Text.{◌==◌}
use text.Mathlib.TextEquality.{eq_iff}
use smolit_assistant.Base.Tests.{Bool-cases, if◌then◌else◌, ◌>>=◌}
use smolit_assistant.Base.Lists.{any, all, In, test-In}

In-of_any : (n : String) (ks : List String) → any (λ k. k == n) ks ≡ true → In n ks
In-of_any n [] h = cc
In-of_any n (k ∷ ks) h = elim (Bool-cases (k == n)) [
  | inl same ↦ inl ((eq_iff k n).0 same)
  | inr other ↦ inr (In-of_any n ks (rw (other, ◌||◌) at h))
]

or_true : (b : Bool) → (b || true) ≡ true
or_true true = refl
or_true false = refl

any_of_In : (n : String) (ks : List String) → In n ks → any (λ k. k == n) ks ≡ true
any_of_In n [] h = absurd h
any_of_In n (k ∷ ks) (inl e) = rw ((eq_iff k n).1 e)
any_of_In n (k ∷ ks) (inr m) = rw (any_of_In n ks m) (or_true (k == n))

-- The whitelist test holds exactly at the members.
pub any-In_iff : (n : String) (ks : List String) → (any (λ k. k == n) ks ≡ true) ↔ In n ks
any-In_iff n ks = (In-of_any n ks, any_of_In n ks)

-- A clamp to a whitelist with a listed default lands in the list.
pub clamp-In :
    (n d : String) (ks : List String) → In d ks → In (if any (λ k. k == n) ks then n else d) ks
clamp-In n d ks h = elim (Bool-cases (any (λ k. k == n) ks)) [
  | inl known ↦ rw (known, if◌then◌else◌) (In-of_any n ks known)
  | inr other ↦ rw (other, if◌then◌else◌) h
]

-- A whitelist filter behind a normal form that leaves the listed texts alone is idempotent.
pub whitelist_idem :
    (norm : String → String) (ks : List String)
    → all (λ k. norm k == k) ks ≡ true
    → (raw : Option String)
    → let filter = λ (s : String). if any (λ k. k == norm s) ks then some (norm s) else none in
      (raw >>= filter) >>= filter ≡ (raw >>= filter)
whitelist_idem norm ks fixed none = refl
whitelist_idem norm ks fixed (some s) = elim (Bool-cases (any (λ k. k == norm s) ks)) [
  | inl known ↦
      let e = (eq_iff _ _).0 (test-In (λ k. norm k == k) ks fixed (In-of_any (norm s) ks known)) in
      rw (known, if◌then◌else◌) (rw (e, known))
  | inr other ↦ rw (other, if◌then◌else◌)
]
