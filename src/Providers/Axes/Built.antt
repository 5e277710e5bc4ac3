-- ===== src/Providers/Axes/Built.antt =====
-- core/src/providers/text.rs, core/src/providers/stt.rs and core/src/providers/tts.rs: what is built from
-- a chain: the kinds of a valid chain in order, never an empty chain, and no cloud that is not listed.
use smolit_assistant.Base.{
  ◌≡◌, ◌≢◌, refl, sym, ap, ◌∙◌, subst, String, false, ◌⊎◌, inl, inr, List, [], ◌∷◌, ◌++◌, ◌==◌,
  eq_iff, map, if_both, In, All,
}
use smolit_assistant.Config.{AudioConfig}
use smolit_assistant.Config.Values.{normalized}
use smolit_assistant.Providers.{
  known_text_kinds, known_stt_kinds, known_tts_kinds, provider_name_cloud_http,
  provider_name_abrain, provider_name_llamafile_local, provider_name_local_http,
}
use smolit_assistant.Providers.Chain.{
  valid, validate_text_chain, validate_stt_chain, validate_tts_chain,
}
use smolit_assistant.Providers.Chain.Valid.{validate_chain_iff}
use smolit_assistant.Providers.Axes.{
  text_kinds, stt_kinds, tts_kinds, TextProviderImpl, SttProviderImpl, TtsProviderImpl,
  text_kind_name, stt_kind_name, tts_kind_name, TextParts, text_provider_of, text_providers,
  or_abrain, text_from_chain, stt_provider_of, stt_providers, or_stt_command, stt_from_chain,
  tts_provider_of, tts_providers, or_tts_command, tts_from_chain,
}

map-append_lem :
    {A : Type 0} (f : A → String) (xs ys : List A) → map f (xs ++ ys) ≡ map f xs ++ map f ys
map-append_lem f [] ys = refl
map-append_lem f (x ∷ xs) ys = ap (λ l. f x ∷ l) (map-append_lem f xs ys)

-- A known kind is its own normal form, and gives the provider of that kind.
text_known :
    (parts : TextParts) (k : String)
    → In k known_text_kinds
    → map text_kind_name (text_provider_of parts (normalized k)) ≡ k ∷ []
unfolding text_provider_of text_kind_name normalized
text_known parts k (inl e) =
    subst (λ j. map text_kind_name (text_provider_of parts (normalized j)) ≡ j ∷ []) e refl
text_known parts k (inr (inl e)) =
    subst (λ j. map text_kind_name (text_provider_of parts (normalized j)) ≡ j ∷ []) e refl
text_known parts k (inr (inr (inl e))) =
    subst (λ j. map text_kind_name (text_provider_of parts (normalized j)) ≡ j ∷ []) e refl
text_known parts k (inr (inr (inr (inl e)))) =
    subst (λ j. map text_kind_name (text_provider_of parts (normalized j)) ≡ j ∷ []) e refl
text_known parts k (inr (inr (inr (inr m)))) = absurd m

text-All_known :
    (parts : TextParts) (chain : List String)
    → All (λ k. In k known_text_kinds) chain
    → map text_kind_name (text_providers parts chain) ≡ chain
unfolding text_providers
text-All_known parts [] h = refl
text-All_known parts (k ∷ chain) (h, hs) =
    map-append_lem text_kind_name (text_provider_of parts (normalized k))
      (text_providers parts chain)
    ∙ ap (λ l. l ++ map text_kind_name (text_providers parts chain)) (text_known parts k h)
    ∙ ap (λ l. k ∷ l) (text-All_known parts chain hs)

or_abrain_kinds :
    (parts : TextParts) (ps : List TextProviderImpl) (chain : List String)
    → chain ≢ []
    → map text_kind_name ps ≡ chain
    → map text_kind_name (or_abrain parts ps) ≡ chain
or_abrain_kinds parts [] chain full e = absurd (full (sym e))
or_abrain_kinds parts (p ∷ ps) chain full e = e

pub mapped : (f : String → String) (xs : List String) → xs ≢ [] → map f xs ≢ []
mapped f [] full e = full refl
mapped f (x ∷ xs) full e = cc

-- The resolver that is built from a chain which has passed the validation has exactly the providers of
-- that chain, in its order.
pub text_from_chain-valid :
    (raw kinds : List String) (parts : TextParts)
    → validate_text_chain raw ≡ valid kinds
    → text_kinds (text_from_chain kinds parts) ≡ kinds
unfolding text_from_chain validate_text_chain normalized
text_from_chain-valid raw kinds parts h =
    let (full, e, listed, distinct) = (validate_chain_iff known_text_kinds raw kinds refl).0 h in
    or_abrain_kinds parts (text_providers parts kinds) kinds
      (λ none_left. mapped normalized raw full (sym e ∙ none_left))
      (text-All_known parts kinds listed)

differ : (a b : String) → (a == b) ≡ false → a ≡ b → ⊥
differ a b h e = cc ((eq_iff a b).1 e)

abbrev OnlyIf : String → List TextProviderImpl → Type 0
OnlyIf k ps = In provider_name_cloud_http (map text_kind_name ps) → provider_name_cloud_http ≡ k

only :
    (k j : String)
    → (j == provider_name_cloud_http) ≡ false
    → In provider_name_cloud_http (j ∷ [])
    → provider_name_cloud_http ≡ k
only k j other (inl e) = absurd (differ j provider_name_cloud_http other e)
only k j other (inr m) = absurd m

cloud_of : (parts : TextParts) (k : String) → OnlyIf k (text_provider_of parts k)
unfolding text_provider_of text_kind_name
cloud_of parts k =
    if_both (OnlyIf k) (k == provider_name_abrain) _ _ (λ e. only k provider_name_abrain refl)
      (λ e.
        if_both (OnlyIf k) (k == provider_name_llamafile_local) _ _
          (λ e. only k provider_name_llamafile_local refl)
          (λ e.
            if_both (OnlyIf k) (k == provider_name_local_http) _ _
              (λ e. only k provider_name_local_http refl)
              (λ e.
                if_both (OnlyIf k) (k == provider_name_cloud_http) _ _
                  (λ e m. sym ((eq_iff k provider_name_cloud_http).0 e)) (λ e m. absurd m))))

In-append_either : (a : String) (xs ys : List String) → In a (xs ++ ys) → In a xs ⊎ In a ys
In-append_either a [] ys m = inr m
In-append_either a (x ∷ xs) ys (inl e) = inl (inl e)
In-append_either a (x ∷ xs) ys (inr m) = elim (In-append_either a xs ys m) [
  | inl m' ↦ inl (inr m')
  | inr m' ↦ inr m'
]

providers_cloud :
    (parts : TextParts) (chain : List String)
    → In provider_name_cloud_http (map text_kind_name (text_providers parts chain))
    → In provider_name_cloud_http (map normalized chain)
unfolding text_providers
providers_cloud parts [] m = m
providers_cloud parts (k ∷ chain) m =
    elim (In-append_either provider_name_cloud_http
      (map text_kind_name (text_provider_of parts (normalized k)))
      (map text_kind_name (text_providers parts chain))
      (subst (In provider_name_cloud_http)
        (map-append_lem text_kind_name (text_provider_of parts (normalized k))
          (text_providers parts chain))
        m)) [
          | inl here ↦ inl (sym (cloud_of parts (normalized k) here))
          | inr later ↦ inr (providers_cloud parts chain later)
        ]

or_abrain_cloud :
    (parts : TextParts) (ps : List TextProviderImpl)
    → In provider_name_cloud_http (map text_kind_name (or_abrain parts ps))
    → In provider_name_cloud_http (map text_kind_name ps)
unfolding text_kind_name
or_abrain_cloud parts [] (inl e) =
    absurd (differ provider_name_abrain provider_name_cloud_http refl e)
or_abrain_cloud parts [] (inr m) = m
or_abrain_cloud parts (p ∷ ps) m = m

or_abrain-ne-nil : (parts : TextParts) (ps : List TextProviderImpl) → or_abrain parts ps ≢ []
or_abrain-ne-nil parts [] e = cc
or_abrain-ne-nil parts (p ∷ ps) e = cc

-- Whatever the chain holds, the text resolver has a provider, and the cloud is among its kinds only if
-- the chain lists it.
pub text_from_chain-cloud :
    (chain : List String) (parts : TextParts)
    → ((text_from_chain chain parts).providers ≢ [])
      × (In provider_name_cloud_http (text_kinds (text_from_chain chain parts))
          → In provider_name_cloud_http (map normalized chain))
unfolding text_from_chain
text_from_chain-cloud chain parts = (
  or_abrain-ne-nil parts (text_providers parts chain),
  λ m. providers_cloud parts chain (or_abrain_cloud parts (text_providers parts chain) m),
)

stt_known :
    (audio : AudioConfig) (k : String)
    → In k known_stt_kinds
    → map stt_kind_name (stt_provider_of audio (normalized k)) ≡ k ∷ []
unfolding stt_provider_of stt_kind_name normalized
stt_known audio k (inl e) =
    subst (λ j. map stt_kind_name (stt_provider_of audio (normalized j)) ≡ j ∷ []) e refl
stt_known audio k (inr (inl e)) =
    subst (λ j. map stt_kind_name (stt_provider_of audio (normalized j)) ≡ j ∷ []) e refl
stt_known audio k (inr (inr m)) = absurd m

stt-All_known :
    (audio : AudioConfig) (chain : List String)
    → All (λ k. In k known_stt_kinds) chain
    → map stt_kind_name (stt_providers audio chain) ≡ chain
unfolding stt_providers
stt-All_known audio [] h = refl
stt-All_known audio (k ∷ chain) (h, hs) =
    map-append_lem stt_kind_name (stt_provider_of audio (normalized k)) (stt_providers audio chain)
    ∙ ap (λ l. l ++ map stt_kind_name (stt_providers audio chain)) (stt_known audio k h)
    ∙ ap (λ l. k ∷ l) (stt-All_known audio chain hs)

or_stt_command_kinds :
    (audio : AudioConfig) (ps : List SttProviderImpl) (chain : List String)
    → chain ≢ []
    → map stt_kind_name ps ≡ chain
    → map stt_kind_name (or_stt_command audio ps) ≡ chain
or_stt_command_kinds audio [] chain full e = absurd (full (sym e))
or_stt_command_kinds audio (p ∷ ps) chain full e = e

-- The same of the speech recognition and of the speech output.
pub stt_from_chain-valid :
    (raw kinds : List String) (audio : AudioConfig)
    → validate_stt_chain raw ≡ valid kinds
    → stt_kinds (stt_from_chain kinds audio) ≡ kinds
unfolding stt_from_chain validate_stt_chain normalized
stt_from_chain-valid raw kinds audio h =
    let (full, e, listed, distinct) = (validate_chain_iff known_stt_kinds raw kinds refl).0 h in
    or_stt_command_kinds audio (stt_providers audio kinds) kinds
      (λ none_left. mapped normalized raw full (sym e ∙ none_left))
      (stt-All_known audio kinds listed)

tts_known :
    (audio : AudioConfig) (k : String)
    → In k known_tts_kinds
    → map tts_kind_name (tts_provider_of audio (normalized k)) ≡ k ∷ []
unfolding tts_provider_of tts_kind_name normalized
tts_known audio k (inl e) =
    subst (λ j. map tts_kind_name (tts_provider_of audio (normalized j)) ≡ j ∷ []) e refl
tts_known audio k (inr (inl e)) =
    subst (λ j. map tts_kind_name (tts_provider_of audio (normalized j)) ≡ j ∷ []) e refl
tts_known audio k (inr (inr m)) = absurd m

tts-All_known :
    (audio : AudioConfig) (chain : List String)
    → All (λ k. In k known_tts_kinds) chain
    → map tts_kind_name (tts_providers audio chain) ≡ chain
unfolding tts_providers
tts-All_known audio [] h = refl
tts-All_known audio (k ∷ chain) (h, hs) =
    map-append_lem tts_kind_name (tts_provider_of audio (normalized k)) (tts_providers audio chain)
    ∙ ap (λ l. l ++ map tts_kind_name (tts_providers audio chain)) (tts_known audio k h)
    ∙ ap (λ l. k ∷ l) (tts-All_known audio chain hs)

or_tts_command_kinds :
    (audio : AudioConfig) (ps : List TtsProviderImpl) (chain : List String)
    → chain ≢ []
    → map tts_kind_name ps ≡ chain
    → map tts_kind_name (or_tts_command audio ps) ≡ chain
or_tts_command_kinds audio [] chain full e = absurd (full (sym e))
or_tts_command_kinds audio (p ∷ ps) chain full e = e

pub tts_from_chain-valid :
    (raw kinds : List String) (audio : AudioConfig)
    → validate_tts_chain raw ≡ valid kinds
    → tts_kinds (tts_from_chain kinds audio) ≡ kinds
unfolding tts_from_chain validate_tts_chain normalized
tts_from_chain-valid raw kinds audio h =
    let (full, e, listed, distinct) = (validate_chain_iff known_tts_kinds raw kinds refl).0 h in
    or_tts_command_kinds audio (tts_providers audio kinds) kinds
      (λ none_left. mapped normalized raw full (sym e ∙ none_left))
      (tts-All_known audio kinds listed)
