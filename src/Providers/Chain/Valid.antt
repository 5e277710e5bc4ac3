-- ===== src/Providers/Chain/Valid.antt =====
-- core/src/providers/{text,stt,tts}.rs: which chains pass the validation, and what comes out.
use smolit_assistant.Base.{
  arith, ◌≡◌, ◌≢◌, ◌↔◌, refl, ap, sym, ◌∙◌, subst, String, Bool, true, false, not, ◌||◌, ◌⊎◌, inl,
  inr, List, [], ◌∷◌, ◌++◌, ◌==◌, map, append_assoc, append-nil, if◌then◌else◌, any, all, In,
  test-In, All, is_empty, Bool-cases,
}
use smolit_assistant.Base.Text.Listed.{any-In_iff}
use smolit_assistant.Config.Values.{normalized}
use smolit_assistant.Providers.Chain.{valid, push_kinds, validate_chain}

-- No text stands twice in the list.
abbrev pub Distinct : List String → Type 0
Distinct [] = Unit
Distinct (x ∷ xs) = (In x xs → ⊥) × Distinct xs

-- The items are new: none stands in `out`, and none stands twice.
abbrev Fresh : List String → List String → Type 0
Fresh out [] = Unit
Fresh out (x ∷ xs) = (In x out → ⊥) × Fresh (out ++ x ∷ []) xs

In-append_right : (k y : String) (xs : List String) → In y xs → In y (xs ++ k ∷ [])
In-append_right k y [] m = absurd m
In-append_right k y (x ∷ xs) (inl e) = inl e
In-append_right k y (x ∷ xs) (inr m) = inr (In-append_right k y xs m)

In-append_end : (k : String) (xs : List String) → In k (xs ++ k ∷ [])
In-append_end k [] = inl refl
In-append_end k (x ∷ xs) = inr (In-append_end k xs)

In-append_cases : (k y : String) (xs : List String) → In y (xs ++ k ∷ []) → In y xs ⊎ (k ≡ y)
In-append_cases k y [] (inl e) = inr e
In-append_cases k y [] (inr m) = absurd m
In-append_cases k y (x ∷ xs) (inl e) = inl (inl e)
In-append_cases k y (x ∷ xs) (inr m) = elim (In-append_cases k y xs m) [
  | inl m' ↦ inl (inr m')
  | inr e ↦ inr e
]

Fresh-Distinct :
    (out xs : List String) → Fresh out xs → Distinct xs × ((y : String) → In y xs → In y out → ⊥)
Fresh-Distinct out [] h = (tt, λ y m n. m)
Fresh-Distinct out (x ∷ xs) (new, h) =
    let (d, apart) = Fresh-Distinct (out ++ x ∷ []) xs h in
    (
      ((λ m. apart x m (In-append_end x out)), d),
      (λ y m n. elim m [ inl e ↦ new (rw e n) | inr m' ↦ apart y m' (In-append_right x y out n) ]),
    )

Distinct-Fresh :
    (out xs : List String) → Distinct xs → ((y : String) → In y xs → In y out → ⊥) → Fresh out xs
Distinct-Fresh out [] d apart = tt
Distinct-Fresh out (x ∷ xs) (new, d) apart = (
  apart x (inl refl),
  Distinct-Fresh (out ++ x ∷ []) xs d (λ y m n. elim (In-append_cases x y out n) [
    | inl n' ↦ apart y (inr m) n'
    | inr e ↦ new (rw e m)
  ]),
)

known_of : (a b : Bool) → (a || not b) ≡ false → b ≡ true
known_of a b h = ground arith

-- What is pushed: the normal forms of the items, all known and new.
push_kinds-valid :
    (known out raw : List String) {kinds : List String}
    → push_kinds known out raw ≡ valid kinds
    → (kinds ≡ out ++ map normalized raw)
      × All (λ k. In k known) (map normalized raw)
      × Fresh out (map normalized raw)
unfolding push_kinds
push_kinds-valid known out [] h = (cc (append-nil out), tt, tt)
push_kinds-valid known out (item ∷ raw) {kinds} h =
    let kind = normalized item in
    elim (Bool-cases (is_empty kind || not (any (λ k. k == kind) known))) [
      | inl bad ↦ cc (rw (bad, if◌then◌else◌) at h)
      | inr good ↦ elim (Bool-cases (any (λ existing. existing == kind) out)) [
        | inl old ↦ cc (rw (good, old, if◌then◌else◌) at h)
        | inr new ↦
            let (e, listed, fresh) =
              push_kinds-valid known (out ++ kind ∷ []) raw (rw (good, new, if◌then◌else◌) at h) in
            (
              e ∙ append_assoc out (kind ∷ []) (map normalized raw),
              (
                (any-In_iff kind known).0
                    (known_of (is_empty kind) (any (λ k. k == kind) known) good),
                listed,
              ),
              ((λ m. cc ((any-In_iff kind out).1 m)), fresh),
            )
      ]
    ]

false_of_not : (b : Bool) → (b ≡ true → ⊥) → b ≡ false
false_of_not true h = absurd (h refl)
false_of_not false h = refl

-- No known kind is the empty text.
abbrev pub Named : List String → Type 0
Named known = all (λ k. not (is_empty k)) known ≡ true

not-true : (b : Bool) → not b ≡ true → b ≡ false
not-true b h = ground arith

push_kinds_complete :
    (known out raw : List String)
    → Named known
    → All (λ k. In k known) (map normalized raw)
    → Fresh out (map normalized raw)
    → push_kinds known out raw ≡ valid (out ++ map normalized raw)
unfolding push_kinds
push_kinds_complete known out [] named listed fresh = ap valid (sym (append-nil out))
push_kinds_complete known out (item ∷ raw) named (known_kind, listed) (new, fresh) =
    let kind = normalized item in
    let full = not-true (is_empty kind) (test-In (λ k. not (is_empty k)) known named known_kind) in
    let found = (any-In_iff kind known).1 known_kind in
    let unseen =
      false_of_not (any (λ existing. existing == kind) out)
        (λ h. new ((any-In_iff kind out).0 h)) in
    rw (full, found, unseen)
      (push_kinds_complete known (out ++ kind ∷ []) raw named listed fresh
        ∙ ap valid (append_assoc out (kind ∷ []) (map normalized raw)))

-- If no known kind is the empty text, a chain is accepted, with the kinds `kinds`, exactly if it has an
-- item, and `kinds` are the normal forms of its items, each of them known and none of them twice.
pub validate_chain_iff :
    (known raw kinds : List String)
    → Named known
    → (validate_chain known raw ≡ valid kinds)
      ↔ ((raw ≢ []) × (kinds ≡ map normalized raw) × All (λ k. In k known) kinds × Distinct kinds)
unfolding validate_chain
validate_chain_iff known [] kinds named = ((λ h. cc), (λ h. absurd (h.0 refl)))
validate_chain_iff known (item ∷ raw) kinds named = (
  (λ h.
      let (e, listed, fresh) = push_kinds-valid known [] (item ∷ raw) h in
      (
        (λ e'. cc),
        e,
        subst (All (λ k. In k known)) (sym e) listed,
        subst Distinct (sym e) (Fresh-Distinct [] (map normalized (item ∷ raw)) fresh).0,
      )),
  (λ h.
      push_kinds_complete known [] (item ∷ raw) named (subst (All (λ k. In k known)) h.1 h.2)
        (Distinct-Fresh [] (map normalized (item ∷ raw)) (subst Distinct h.1 h.3) (λ y m n. n))
      ∙ ap valid (sym h.1)),
)
