-- ===== src/Base/Text/Cuts.antt =====
-- What the cuts of a text at a character leave: the parts lack the character, and a text that is put
-- together from parts without it is cut there again.
use Prim.Native.Nat.{ℕ}
use Prim.Native.Char.{Char, code}
use Prim.Native.String
use Prim.Native.String.append
use Prim.Native.String.{String, [], ◌∷◌}
use mathlib.Core.Path.{◌≡◌, refl, subst}
use mathlib.Core.Logic.{inl, inr}
use mathlib.Core.Bool.{Bool, true, false, ◌||◌}
use mathlib.Core.Option.{none, some}
use native.Mathlib.Omega.{arith}
use smolit_assistant.Base.Tests.{eqb, if◌then◌else◌, Bool-cases, Option-cases}
use smolit_assistant.Base.Text.{is_empty}
use smolit_assistant.Base.Text.Search.{cut_first, cut_last, has_char}

infixr 65 ◌<>◌
abbrev pub ◌<>◌ : String → String → String
s <> t = String.◌++◌ s t

has_char_left : (a b : Bool) → (a || b) ≡ false → a ≡ false
has_char_left a b h = ground arith

has_char_right : (a b : Bool) → (a || b) ≡ false → b ≡ false
has_char_right a b h = ground arith

pub has_char-append :
    (k : ℕ) (s t : String)
    → has_char k s ≡ false
    → has_char k t ≡ false
    → has_char k (s <> t) ≡ false
unfolding has_char
has_char-append k [] t h g = rw (append.nil t) g
has_char-append k (c ∷ s) t h g = rw (append.cons c s t) (
    rw (has_char_left (eqb (code c) k) (has_char k s) h)
      (has_char-append k s t (has_char_right (eqb (code c) k) (has_char k s) h) g))

pub nonempty-append : (s t : String) → is_empty s ≡ false → is_empty (s <> t) ≡ false
nonempty-append [] t h = cc
nonempty-append (c ∷ s) t h = rw (append.cons c s t) refl

-- The first `k` of a text that goes on with `k` behind a part without it.
pub cut_first-append :
    (k : ℕ) (c : Char) (s t : String)
    → eqb (code c) k ≡ true
    → has_char k s ≡ false
    → cut_first k (s <> (c ∷ t)) ≡ some (s, c ∷ t)
unfolding cut_first has_char
cut_first-append k c [] t e h = rw (append.nil (c ∷ t)) (rw e)
cut_first-append k c (d ∷ s) t e h = rw (append.cons d s (c ∷ t)) (
    rw (has_char_left (eqb (code d) k) (has_char k s) h)
      (rw (cut_first-append k c s t e (has_char_right (eqb (code d) k) (has_char k s) h))))

cut_last-none : (k : ℕ) (s : String) → has_char k s ≡ false → cut_last k s ≡ none
unfolding cut_last has_char
cut_last-none k [] h = refl
cut_last-none k (c ∷ s) h =
    rw (cut_last-none k s (has_char_right (eqb (code c) k) (has_char k s) h))
      (rw (has_char_left (eqb (code c) k) (has_char k s) h))

-- The last `k` of a text that ends with a part without it behind `k`.
pub cut_last-append :
    (k : ℕ) (c : Char) (s t : String)
    → eqb (code c) k ≡ true
    → has_char k t ≡ false
    → cut_last k (s <> (c ∷ t)) ≡ some (s, t)
unfolding cut_last
cut_last-append k c [] t e h = rw (append.nil (c ∷ t)) (rw (cut_last-none k t h) (rw e))
cut_last-append k c (d ∷ s) t e h =
    rw (append.cons d s (c ∷ t)) (rw (cut_last-append k c s t e h, cut_last))

-- The part before the last `k` lacks what the text lacks.
pub has_char-cut_last :
    (k j : ℕ) (s a b : String)
    → cut_last k s ≡ some (a, b)
    → has_char j s ≡ false
    → has_char j a ≡ false
unfolding cut_last has_char
has_char-cut_last k j [] a b h g = cc
has_char-cut_last k j (c ∷ s) a b h g = elim (Option-cases (cut_last k s)) [
  | inl missing ↦ elim (Bool-cases (eqb (code c) k)) [
    | inl here ↦
        let e : [] ≡ a = cc (rw (missing, here, cut_last) at h) in
        subst (λ v. has_char j v ≡ false) e refl
    | inr away ↦ cc (rw (missing, away, cut_last) at h)
  ]
  | inr ((a', b'), e) ↦
      let same : (c ∷ a') ≡ a = cc (rw (e, cut_last) at h) in
      subst (λ v. has_char j v ≡ false) same
        (rw (has_char_left (eqb (code c) j) (has_char j s) g)
          (has_char-cut_last k j s a' b' e (has_char_right (eqb (code c) j) (has_char j s) g)))
]

-- The text begins with the character `k`.
abbrev pub Begins : ℕ → String → Type 0
Begins k [] = ⊥
Begins k (c ∷ s) = eqb (code c) k ≡ true

pub cut_first_parts :
    (k j : ℕ) (s a b : String)
    → cut_first k s ≡ some (a, b)
    → (has_char k a ≡ false) × Begins k b × (has_char j s ≡ false → has_char j a ≡ false)
unfolding cut_first has_char
cut_first_parts k j [] a b h = cc
cut_first_parts k j (c ∷ s) a b h = elim (Bool-cases (eqb (code c) k)) [
  | inl here ↦
      let e : [] ≡ a = cc (rw (here, if◌then◌else◌) at h) in
      let f : (c ∷ s) ≡ b = cc (rw (here, if◌then◌else◌) at h) in
      (
        subst (λ v. has_char k v ≡ false) e refl,
        subst (Begins k) f here,
        λ g. subst (λ v. has_char j v ≡ false) e refl,
      )
  | inr away ↦ elim (Option-cases (cut_first k s)) [
    | inl missing ↦ cc (rw (away, missing, if◌then◌else◌) at h)
    | inr ((a', b'), e) ↦
        let same : (c ∷ a') ≡ a = cc (rw (away, e, if◌then◌else◌) at h) in
        let rest : b' ≡ b = cc (rw (away, e, if◌then◌else◌) at h) in
        let (no_k, begins, no_j) = cut_first_parts k j s a' b' e in
        (
          subst (λ v. has_char k v ≡ false) same (rw away no_k),
          subst (Begins k) rest begins,
          λ g.
              subst (λ v. has_char j v ≡ false) same
                (rw (has_char_left (eqb (code c) j) (has_char j s) g)
                  (no_j (has_char_right (eqb (code c) j) (has_char j s) g))),
        )
  ]
]

pub cut_first-none : (k : ℕ) (s : String) → cut_first k s ≡ none → has_char k s ≡ false
unfolding cut_first has_char
cut_first-none k [] h = refl
cut_first-none k (c ∷ s) h = elim (Bool-cases (eqb (code c) k)) [
  | inl here ↦ cc (rw (here, if◌then◌else◌) at h)
  | inr away ↦ elim (Option-cases (cut_first k s)) [
    | inl missing ↦ rw away (cut_first-none k s missing)
    | inr ((a, b), e) ↦ cc (rw (away, e, if◌then◌else◌) at h)
  ]
]
