-- ===== src/Providers/Axes/Settled.antt =====
-- core/src/providers/text.rs: a text resolver that is built, and that runs, holds its llamafile server
-- exactly in the lifecycle `ready`.
use smolit_assistant.Base.{
  ℕ, ◌+◌, String, Option, none, some, inl, inr, List, [], ◌∷◌, ◌++◌, ◌==◌, if_both,
}
use smolit_assistant.Config.Values.{normalized}
use smolit_assistant.Providers.{
  provider_name_abrain, provider_name_llamafile_local, provider_name_local_http,
  provider_name_cloud_http,
}
use smolit_assistant.Providers.Outside.{Outside}
use smolit_assistant.Providers.Resolver.{Resolver, try_providers, run_providers, resolve}
use smolit_assistant.Providers.Resolver.First.{Result-cases}
use smolit_assistant.Providers.Llamafile.Settled.{
  IsSettled, new_llamafile-IsSettled, run_llamafile-IsSettled,
}
use smolit_assistant.Providers.Axes.{
  TextProviderImpl, abrain, llamafile_local, local_http, cloud_http, TextParts, text_attempt,
  text_axis, text_provider_of, text_providers, or_abrain, text_from_chain,
}

-- A llamafile provider is settled.
abbrev pub SettledIf : TextProviderImpl → Type 0
SettledIf (abrain p) = Unit
SettledIf (llamafile_local p) = IsSettled p
SettledIf (local_http c) = Unit
SettledIf (cloud_http c) = Unit

abbrev pub AllSettled : List TextProviderImpl → Type 0
AllSettled [] = Unit
AllSettled (p ∷ ps) = SettledIf p × AllSettled ps

append-AllSettled :
    (ps qs : List TextProviderImpl) → AllSettled ps → AllSettled qs → AllSettled (ps ++ qs)
append-AllSettled [] qs h k = k
append-AllSettled (p ∷ ps) qs (h, hs) k = (h, append-AllSettled ps qs hs k)

of-AllSettled : (parts : TextParts) (kind : String) → AllSettled (text_provider_of parts kind)
unfolding text_provider_of
of-AllSettled parts kind =
    if_both AllSettled (kind == provider_name_abrain) _ _ (λ e. (tt, tt))
      (λ e.
        if_both AllSettled (kind == provider_name_llamafile_local) _ _
          (λ e. (new_llamafile-IsSettled parts.now parts.llamafile, tt))
          (λ e.
            if_both AllSettled (kind == provider_name_local_http) _ _ (λ e. (tt, tt))
              (λ e.
                if_both AllSettled (kind == provider_name_cloud_http) _ _ (λ e. (tt, tt))
                  (λ e. tt))))

providers-AllSettled :
    (parts : TextParts) (chain : List String) → AllSettled (text_providers parts chain)
unfolding text_providers
providers-AllSettled parts [] = tt
providers-AllSettled parts (kind ∷ chain) =
    append-AllSettled (text_provider_of parts (normalized kind)) (text_providers parts chain)
      (of-AllSettled parts (normalized kind)) (providers-AllSettled parts chain)

or_abrain-AllSettled :
    (parts : TextParts) (ps : List TextProviderImpl)
    → AllSettled ps
    → AllSettled (or_abrain parts ps)
or_abrain-AllSettled parts [] h = (tt, tt)
or_abrain-AllSettled parts (p ∷ ps) h = h

pub text_from_chain-AllSettled :
    (chain : List String) (parts : TextParts) → AllSettled (text_from_chain chain parts).providers
unfolding text_from_chain
text_from_chain-AllSettled chain parts =
    or_abrain-AllSettled parts (text_providers parts chain) (providers-AllSettled parts chain)

module _ (o : Outside) (input : String) where
  attempt-SettledIf :
      (n : ℕ) (p : TextProviderImpl) → SettledIf p → SettledIf ((text_axis o input).attempt n p).1
  unfolding text_attempt
  attempt-SettledIf n (abrain p) h = tt
  attempt-SettledIf n (llamafile_local p) h = (run_llamafile-IsSettled o n p input h).1
  attempt-SettledIf n (local_http c) h = tt
  attempt-SettledIf n (cloud_http c) h = tt

  tries-AllSettled :
      (primary : String) (index : ℕ) (last : Option String) (n : ℕ) (ps : List TextProviderImpl)
      → AllSettled ps
      → AllSettled (try_providers (text_axis o input) primary index last n ps).1
  unfolding try_providers
  tries-AllSettled primary index last n [] h = tt
  tries-AllSettled primary index last n (p ∷ ps) (h, hs) =
      elim (Result-cases ((text_axis o input).attempt n p).0) [
        | inl (t, good) ↦ rw (good, try_providers) (attempt-SettledIf n p h, hs)
        | inr (e, bad) ↦
            rw (bad, try_providers)
              (
                attempt-SettledIf n p h,
                tries-AllSettled primary (index + 1) (some ((text_axis o input).classify_error e))
                    ((text_axis o input).attempt n p).2 ps hs,
              )
      ]

  run-AllSettled :
      (n : ℕ) (ps : List TextProviderImpl)
      → AllSettled ps
      → AllSettled (run_providers (text_axis o input) n ps).1.providers
  run-AllSettled n [] h = tt
  run-AllSettled n (p ∷ ps) h =
      tries-AllSettled ((text_axis o input).kind_name p) 0 none n (p ∷ ps) h

  pub resolve-AllSettled :
      (n : ℕ) (r : Resolver TextProviderImpl)
      → AllSettled r.providers
      → AllSettled (resolve (text_axis o input) n r).1.providers
  unfolding resolve
  resolve-AllSettled n r h = run-AllSettled n r.providers h
