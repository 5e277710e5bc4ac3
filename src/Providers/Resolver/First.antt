-- ===== src/Providers/Resolver/First.antt =====
-- core/src/providers/{text,stt,tts}.rs: a resolver answers with the first provider that answers, and its
-- status says which one that was.
use smolit_assistant.Base.{
  ◌⊎◌, inl, inr, ℕ, ◌+◌, ◌≡◌, refl, ap, ◌∙◌, arith, String, Option, none, some, List, [], ◌∷◌, ◌++◌,
  length,
}
use smolit_assistant.Base.Failures.{Result, ok, err}
use smolit_assistant.Providers.{empty_chain, all_failed, RuntimeStatus}
use smolit_assistant.Providers.Resolver.{
  Axis, Resolver, Resolution, answered, refused, answering_status, failed_status, empty_status,
  try_providers, resolve, run_providers,
}

pub Result-cases :
    {A : Type 0} (r : Result A) → ((a : A) × (r ≡ ok a)) ⊎ ((e : List String) × (r ≡ err e))
Result-cases (ok a) = inl (a, refl)
Result-cases (err e) = inr (e, refl)

module _ {P T : Type 0} (axis : Axis P T) where
  -- From the n-th call outside on, the providers fail one after the other; the next call is the m-th.
  abbrev pub Falls : ℕ → List P → ℕ → Type 0
  Falls n [] m = n ≡ m
  Falls n (p ∷ ps) m =
      ((e : List String) × ((axis.attempt n p).0 ≡ err e)) × Falls (axis.attempt n p).2 ps m

  -- The provider behind those that fail answers; the status names it, and tells whether it is the
  -- first of the chain.
  Answer : String → ℕ → ℕ → List P → T → RuntimeStatus → Type 0
  Answer primary index n ps t status =
      (before after : List P) × (p : P) × (m : ℕ) × (ps ≡ before ++ p ∷ after)
      × Falls n before m
      × ((axis.attempt m p).0 ≡ ok t)
      × (status ≡ answering_status axis primary (index + length before) (axis.attempt m p).1)

  -- All providers fail; the status holds the class of the last one's error.
  Failure : String → ℕ → List P → String → RuntimeStatus → Type 0
  Failure primary n ps class status =
      (before : List P) × (p : P) × (m : ℕ) × (e : List String) × (ps ≡ before ++ p ∷ [])
      × Falls n before m
      × ((axis.attempt m p).0 ≡ err e)
      × (class ≡ axis.classify_error e)
      × (status ≡ failed_status axis primary class)

  abbrev Told : String → ℕ → ℕ → List P → Resolution T → RuntimeStatus → Type 0
  Told primary index n ps (answered t) status = Answer primary index n ps t status
  Told primary index n ps (refused empty_chain) status = ⊥
  Told primary index n ps (refused (all_failed class)) status = Failure primary n ps class status

  -- What a run of the chain has told: an answer of its first provider that answers, or the failure of
  -- all of them, or that there is none.
  pub Explained : ℕ → List P → Resolution T × Resolver P × ℕ → Type 0
  Explained n [] (r, s, m) = (r ≡ refused empty_chain) × (s.status ≡ empty_status axis)
  Explained n (p ∷ ps) (r, s, m) = Told (axis.kind_name p) 0 n (p ∷ ps) r s.status

  cons-Told :
      (primary : String) (index n : ℕ) (p : P) (ps : List P) (e : List String) (r : Resolution T)
      (status : RuntimeStatus)
      → (axis.attempt n p).0 ≡ err e
      → Told primary (index + 1) (axis.attempt n p).2 ps r status
      → Told primary index n (p ∷ ps) r status
  unfolding Answer Failure
  cons-Told primary index n p ps e (answered t) status bad
        (before, after, q, m, split, falls, good, shown) =
      (
        p ∷ before,
        after,
        q,
        m,
        ap (λ l. p ∷ l) split,
        ((e, bad), falls),
        good,
        shown ∙ ap (λ k. answering_status axis primary k (axis.attempt m q).1) (omega arith),
      )
  cons-Told primary index n p ps e (refused empty_chain) status bad h = h
  cons-Told primary index n p ps e (refused (all_failed class)) status bad
        (before, q, m, e', split, falls, worse, c, shown) =
      (p ∷ before, q, m, e', ap (λ l. p ∷ l) split, ((e, bad), falls), worse, c, shown)

  rest-Told :
      (primary : String) (index n : ℕ) (last : Option String) (p : P) (ps : List P)
      → let out = try_providers axis primary index last n (p ∷ ps) in
        Told primary index n (p ∷ ps) out.0 out.2
  unfolding try_providers Answer Failure
  rest-Told primary index n last p [] = elim (Result-cases (axis.attempt n p).0) [
    | inl (t, good) ↦
        rw (good, try_providers)
          (
            [],
            [],
            p,
            n,
            refl,
            refl,
            good,
            ap (λ k. answering_status axis primary k _) (omega arith),
          )
    | inr (e, bad) ↦ rw (bad, try_providers) ([], p, n, e, refl, refl, bad, refl, refl)
  ]
  rest-Told primary index n last p (q ∷ qs) = elim (Result-cases (axis.attempt n p).0) [
    | inl (t, good) ↦
        rw (good, try_providers)
          (
            [],
            q ∷ qs,
            p,
            n,
            refl,
            refl,
            good,
            ap (λ k. answering_status axis primary k _) (omega arith),
          )
    | inr (e, bad) ↦
        let (r, after, status, m) =
          try_providers axis primary (index + 1) (some (axis.classify_error e)) (axis.attempt n p).2
            (q ∷ qs) in
        rw (bad, try_providers)
          (cons-Told primary index n p (q ∷ qs) e r status bad (
            rest-Told primary (index + 1) (axis.attempt n p).2 (some (axis.classify_error e)) q qs))
  ]

  run-Explained : (n : ℕ) (ps : List P) → Explained n ps (run_providers axis n ps)
  unfolding Explained
  run-Explained n [] = (refl, refl)
  run-Explained n (p ∷ ps) = rest-Told (axis.kind_name p) 0 n none p ps

  -- A run of a resolver tries the providers of the chain in order. It answers exactly with the first that
  -- answers, and the status then names its kind, says `available` for the first of the chain and
  -- `fallback_active` for a later one, and holds no error; if all fail, the run fails with the class of
  -- the last error, which the status holds too; and without providers it fails as an empty chain.
  pub resolve-Explained : (n : ℕ) (r : Resolver P) → Explained n r.providers (resolve axis n r)
  unfolding resolve Explained
  resolve-Explained n r = run-Explained n r.providers
