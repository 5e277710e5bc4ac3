-- ===== src/Providers/Resolver/Kinds.antt =====
-- core/src/providers/{text,stt,tts}.rs: a run of a resolver leaves the providers of the chain in place.
use smolit_assistant.Base.{
  ℕ, ◌+◌, ◌≡◌, refl, ap, ◌∙◌, String, Option, none, some, List, [], ◌∷◌, map, inl, inr,
}
use smolit_assistant.Providers.Resolver.{Axis, Resolver, try_providers, run_providers, resolve}
use smolit_assistant.Providers.Resolver.First.{Result-cases}

module _ {P T : Type 0} (axis : Axis P T)
    (keeps : (n : ℕ) (p : P) → axis.kind_name (axis.attempt n p).1 ≡ axis.kind_name p) where
  tries_kinds :
      (primary : String) (index : ℕ) (last : Option String) (n : ℕ) (ps : List P)
      → map axis.kind_name (try_providers axis primary index last n ps).1 ≡ map axis.kind_name ps
  unfolding try_providers
  tries_kinds primary index last n [] = refl
  tries_kinds primary index last n (p ∷ ps) = elim (Result-cases (axis.attempt n p).0) [
    | inl (t, good) ↦ rw (good, try_providers) (ap (λ k. k ∷ map axis.kind_name ps) (keeps n p))
    | inr (e, bad) ↦
        rw (bad, try_providers)
          (ap
              (λ k.
                k
                ∷ map axis.kind_name
                    (try_providers axis primary (index + 1) (some (axis.classify_error e))
                      (axis.attempt n p).2 ps).1)
              (keeps n p)
            ∙ ap (λ ks. axis.kind_name p ∷ ks)
                (tries_kinds primary (index + 1) (some (axis.classify_error e)) (axis.attempt n p).2
                  ps))
  ]

  run_kinds :
      (n : ℕ) (ps : List P)
      → map axis.kind_name (run_providers axis n ps).1.providers ≡ map axis.kind_name ps
  run_kinds n [] = refl
  run_kinds n (p ∷ ps) = tries_kinds (axis.kind_name p) 0 none n (p ∷ ps)

  pub resolve_kinds :
      (n : ℕ) (r : Resolver P)
      → map axis.kind_name (resolve axis n r).1.providers ≡ map axis.kind_name r.providers
  unfolding resolve
  resolve_kinds n r = run_kinds n r.providers
