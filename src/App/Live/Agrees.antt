-- ===== src/App/Live/Agrees.antt =====
-- core/src/app.rs: the changes of the settings keep the resolvers in agreement with the live values.
use smolit_assistant.Base.{
  ℕ, ◌≡◌, refl, sym, ap, ◌∙◌, String, Option, none, some, List, [], ◌∷◌, ◌++◌,
}
use smolit_assistant.Config.{Config, AudioConfig}
use smolit_assistant.Config.Values.{normalized}
use smolit_assistant.Providers.{
  provider_name_abrain, provider_name_stt_command, provider_name_tts_command,
}
use smolit_assistant.Providers.Chain.{
  Validation, valid, invalid, validate_text_chain, validate_stt_chain, validate_tts_chain,
}
use smolit_assistant.Providers.Resolver.{Resolver}
use smolit_assistant.Providers.Axes.{
  TextProviderImpl, SttProviderImpl, TtsProviderImpl, stt_provider_of, stt_providers,
  or_stt_command, stt_resolver, stt_from_chain, tts_provider_of, tts_providers, or_tts_command,
  tts_resolver, tts_from_chain, text_from_chain,
}
use smolit_assistant.Settings.{Disk}
use smolit_assistant.Settings.Saves.{
  clear_text_chain_override, clear_stt_chain_override, clear_tts_chain_override,
}
use smolit_assistant.App.Live.{
  Live, text_parts, rebuild_text, rebuild_stt, rebuild_tts, persisted, SettingsLlamafileUpdate,
  SettingsSttUpdate, SettingsTtsUpdate, SettingsLocalHttpUpdate, SettingsCloudHttpConfigUpdate,
  Checked, refused, accepted,
}
use smolit_assistant.App.Live.Updates.{
  merge_stt, merge_tts, llamafile_checked, update_llamafile_config, update_stt_config,
  update_tts_config, local_http_checked, update_local_http_config, cloud_http_checked,
  update_cloud_http_config, key_written, set_cloud_http_api_key, set_llamafile, set_local_http,
}
use smolit_assistant.App.Live.Chains.{
  text_chain_checked, update_text_provider_chain, reset_text_provider_chain, stt_chain_checked,
  update_stt_provider_chain, reset_stt_provider_chain, tts_chain_checked, update_tts_provider_chain,
  reset_tts_provider_chain,
}
use smolit_assistant.App.Live.Start.{start}

-- The speech output does not depend on the settings of the recognition, nor the other way round.
tts_providers_apart :
    (a b : AudioConfig) (chain : List String)
    → ((k : String) → tts_provider_of a k ≡ tts_provider_of b k)
    → tts_providers a chain ≡ tts_providers b chain
unfolding tts_providers
tts_providers_apart a b [] h = refl
tts_providers_apart a b (k ∷ chain) h =
    ap (λ l. l ++ tts_providers a chain) (h (normalized k))
    ∙ ap (λ l. tts_provider_of b (normalized k) ++ l) (tts_providers_apart a b chain h)

stt_providers_apart :
    (a b : AudioConfig) (chain : List String)
    → ((k : String) → stt_provider_of a k ≡ stt_provider_of b k)
    → stt_providers a chain ≡ stt_providers b chain
unfolding stt_providers
stt_providers_apart a b [] h = refl
stt_providers_apart a b (k ∷ chain) h =
    ap (λ l. l ++ stt_providers a chain) (h (normalized k))
    ∙ ap (λ l. stt_provider_of b (normalized k) ++ l) (stt_providers_apart a b chain h)

tts_after_update :
    (update : SettingsSttUpdate) (a : AudioConfig) (chain : List String)
    → tts_from_chain chain (merge_stt update a) ≡ tts_from_chain chain a
unfolding tts_from_chain tts_provider_of merge_stt
tts_after_update update a chain =
    ap (λ ps. tts_resolver (or_tts_command a ps))
      (tts_providers_apart (merge_stt update a) a chain (λ k. refl))

tts_after_chain :
    (listed : List String) (a : AudioConfig) (chain : List String)
    → tts_from_chain chain (record a { stt_provider_chain = listed }) ≡ tts_from_chain chain a
unfolding tts_from_chain tts_provider_of
tts_after_chain listed a chain =
    ap (λ ps. tts_resolver (or_tts_command a ps))
      (tts_providers_apart (record a { stt_provider_chain = listed }) a chain (λ k. refl))

stt_after_update :
    (update : SettingsTtsUpdate) (a : AudioConfig) (chain : List String)
    → stt_from_chain chain (merge_tts update a) ≡ stt_from_chain chain a
unfolding stt_from_chain stt_provider_of merge_tts
stt_after_update update a chain =
    ap (λ ps. stt_resolver (or_stt_command a ps))
      (stt_providers_apart (merge_tts update a) a chain (λ k. refl))

stt_after_chain :
    (listed : List String) (a : AudioConfig) (chain : List String)
    → stt_from_chain chain (record a { tts_provider_chain = listed }) ≡ stt_from_chain chain a
unfolding stt_from_chain stt_provider_of
stt_after_chain listed a chain =
    ap (λ ps. stt_resolver (or_stt_command a ps))
      (stt_providers_apart (record a { tts_provider_chain = listed }) a chain (λ k. refl))

-- A change of a setting, with the reading of the clock where it builds the text resolver.
pub data SettingsStep : Type 0 where
  llamafile : ℕ → SettingsLlamafileUpdate → SettingsStep
  stt : SettingsSttUpdate → SettingsStep
  tts : SettingsTtsUpdate → SettingsStep
  local_http : ℕ → SettingsLocalHttpUpdate → SettingsStep
  cloud_http : ℕ → SettingsCloudHttpConfigUpdate → SettingsStep
  api_key : ℕ → Option String → SettingsStep
  text_chain : ℕ → List String → SettingsStep
  stt_chain : List String → SettingsStep
  tts_chain : List String → SettingsStep
  reset_text_chain : ℕ → SettingsStep
  reset_stt_chain : SettingsStep
  reset_tts_chain : SettingsStep

unfoldable pub changed : SettingsStep → Live → Option String × Live
unfolding update_llamafile_config update_stt_config update_tts_config update_local_http_config
    update_cloud_http_config set_cloud_http_api_key update_text_provider_chain
    update_stt_provider_chain update_tts_provider_chain reset_text_provider_chain
    reset_stt_provider_chain reset_tts_provider_chain
changed (llamafile now u) l = update_llamafile_config now u l
changed (stt u) l = update_stt_config u l
changed (tts u) l = update_tts_config u l
changed (local_http now u) l = update_local_http_config now u l
changed (cloud_http now u) l = update_cloud_http_config now u l
changed (api_key now key) l = set_cloud_http_api_key now key l
changed (text_chain now chain) l = update_text_provider_chain now chain l
changed (stt_chain chain) l = update_stt_provider_chain chain l
changed (tts_chain chain) l = update_tts_provider_chain chain l
changed (reset_text_chain now) l = reset_text_provider_chain now l
changed reset_stt_chain l = reset_stt_provider_chain l
changed reset_tts_chain l = reset_tts_provider_chain l

module _ {A B C : Type 0} (f : Resolver TextProviderImpl → A) (g : Resolver SttProviderImpl → B)
    (h : Resolver TtsProviderImpl → C) where
  -- Seen through `f`, `g` and `h`, each resolver is what the live values build, the text resolver at some
  -- reading of the clock.
  pub Agrees : Live → Type 0
  Agrees l =
      ((now : ℕ) × (f l.text_provider ≡ f (text_from_chain l.live_text_chain (text_parts now l))))
      × (g l.stt ≡ g (stt_from_chain l.live_audio.stt_provider_chain l.live_audio))
      × (h l.tts ≡ h (tts_from_chain l.live_audio.tts_provider_chain l.live_audio))

  llamafile-Agrees :
      (now : ℕ) (u : SettingsLlamafileUpdate) (mode : Checked (Option String))
      (idle : Checked (Option ℕ)) (l : Live)
      → Agrees l
      → Agrees (llamafile_checked now u mode idle l).1
  unfolding Agrees set_llamafile rebuild_text
  llamafile-Agrees now u (refused message) idle l c = c
  llamafile-Agrees now u (accepted mode) (refused message) l c = c
  llamafile-Agrees now u (accepted mode) (accepted idle) l (text, s, t) = ((now, refl), s, t)

  local_http-Agrees :
      (now : ℕ) (u : SettingsLocalHttpUpdate) (timeout : Checked (Option ℕ)) (l : Live)
      → Agrees l
      → Agrees (local_http_checked now u timeout l).1
  unfolding Agrees set_local_http rebuild_text
  local_http-Agrees now u (refused message) l c = c
  local_http-Agrees now u (accepted timeout) l (text, s, t) = ((now, refl), s, t)

  cloud_http-Agrees :
      (now : ℕ) (u : SettingsCloudHttpConfigUpdate) (timeout : Checked (Option ℕ)) (l : Live)
      → Agrees l
      → Agrees (cloud_http_checked now u timeout l).1
  unfolding Agrees rebuild_text
  cloud_http-Agrees now u (refused message) l c = c
  cloud_http-Agrees now u (accepted timeout) l (text, s, t) = ((now, refl), s, t)

  key-Agrees :
      (now : ℕ) (key : Option String) (written : Option (List String) × Disk) (l : Live)
      → Agrees l
      → Agrees (key_written now key written l).1
  unfolding Agrees rebuild_text text_parts
  key-Agrees now key (some e, disk) l c = c
  key-Agrees now key (none, disk) l (text, s, t) = ((now, refl), s, t)

  text_chain-Agrees :
      (now : ℕ) (checked : Validation) (l : Live)
      → Agrees l
      → Agrees (text_chain_checked now checked l).1
  unfolding Agrees rebuild_text
  text_chain-Agrees now (invalid e) l c = c
  text_chain-Agrees now (valid chain) l (text, s, t) = ((now, refl), s, t)

  stt_chain-Agrees :
      (checked : Validation) (l : Live) → Agrees l → Agrees (stt_chain_checked checked l).1
  unfolding Agrees rebuild_stt text_parts
  stt_chain-Agrees (invalid e) l c = c
  stt_chain-Agrees (valid chain) l (text, s, t) = (
    text,
    refl,
    t ∙ ap h (sym (tts_after_chain chain l.live_audio l.live_audio.tts_provider_chain)),
  )

  tts_chain-Agrees :
      (checked : Validation) (l : Live) → Agrees l → Agrees (tts_chain_checked checked l).1
  unfolding Agrees rebuild_tts text_parts
  tts_chain-Agrees (invalid e) l c = c
  tts_chain-Agrees (valid chain) l (text, s, t) = (
    text,
    s ∙ ap g (sym (stt_after_chain chain l.live_audio l.live_audio.stt_provider_chain)),
    refl,
  )

  update_stt-Agrees :
      (u : SettingsSttUpdate) (l : Live) → Agrees l → Agrees (update_stt_config u l).1
  unfolding Agrees update_stt_config rebuild_stt text_parts merge_stt
  update_stt-Agrees u l (text, s, t) =
      (text, refl, t ∙ ap h (sym (tts_after_update u l.live_audio l.live_audio.tts_provider_chain)))

  update_tts-Agrees :
      (u : SettingsTtsUpdate) (l : Live) → Agrees l → Agrees (update_tts_config u l).1
  unfolding Agrees update_tts_config rebuild_tts text_parts merge_tts
  update_tts-Agrees u l (text, s, t) =
      (text, s ∙ ap g (sym (stt_after_update u l.live_audio l.live_audio.stt_provider_chain)), refl)

  -- Another disk leaves the state coherent.
  persisted-Agrees :
      (written : Option (List String) × Disk) (l : Live) → Agrees l → Agrees (persisted written l)
  unfolding Agrees text_parts
  persisted-Agrees (fault, disk) l c = c

  -- Every change of a setting, accepted or refused, persisted or not, keeps the agreement.
  pub changed-Agrees : (step : SettingsStep) (l : Live) → Agrees l → Agrees (changed step l).1
  unfolding changed update_llamafile_config update_local_http_config update_cloud_http_config
      set_cloud_http_api_key update_text_provider_chain update_stt_provider_chain
      update_tts_provider_chain reset_text_provider_chain reset_stt_provider_chain
      reset_tts_provider_chain
  changed-Agrees (llamafile now u) l c = llamafile-Agrees now u _ _ l c
  changed-Agrees (stt u) l c = update_stt-Agrees u l c
  changed-Agrees (tts u) l c = update_tts-Agrees u l c
  changed-Agrees (local_http now u) l c = local_http-Agrees now u _ l c
  changed-Agrees (cloud_http now u) l c = cloud_http-Agrees now u _ l c
  changed-Agrees (api_key now key) l c = key-Agrees now _ _ l c
  changed-Agrees (text_chain now chain) l c = text_chain-Agrees now _ l c
  changed-Agrees (stt_chain chain) l c = stt_chain-Agrees _ l c
  changed-Agrees (tts_chain chain) l c = tts_chain-Agrees _ l c
  changed-Agrees (reset_text_chain now) l c =
      text_chain-Agrees now (validate_text_chain (provider_name_abrain ∷ [])) _
        (persisted-Agrees (clear_text_chain_override l.disk) l c)
  changed-Agrees reset_stt_chain l c =
      stt_chain-Agrees (validate_stt_chain (provider_name_stt_command ∷ [])) _
        (persisted-Agrees (clear_stt_chain_override l.disk) l c)
  changed-Agrees reset_tts_chain l c =
      tts_chain-Agrees (validate_tts_chain (provider_name_tts_command ∷ [])) _
        (persisted-Agrees (clear_tts_chain_override l.disk) l c)

  pub start-Agrees : (config : Config) (disk : Disk) (now : ℕ) → Agrees (start config disk now)
  unfolding Agrees start text_parts
  start-Agrees config disk now = ((now, refl), refl, refl)

  -- The number of calls and the disk do not matter.
  pub calls-Agrees : (n : ℕ) (l : Live) → Agrees l → Agrees (record l { calls = n })
  unfolding Agrees text_parts
  calls-Agrees n l c = c

  pub text-Agrees :
      (r : Resolver TextProviderImpl) (n : ℕ) (l : Live)
      → f r ≡ f l.text_provider
      → Agrees l
      → Agrees (record l { text_provider = r; calls = n })
  unfolding Agrees text_parts
  text-Agrees r n l e ((now, text), s, t) = ((now, e ∙ text), s, t)

  pub stt-Agrees :
      (r : Resolver SttProviderImpl) (n : ℕ) (l : Live)
      → g r ≡ g l.stt
      → Agrees l
      → Agrees (record l { stt = r; calls = n })
  unfolding Agrees text_parts
  stt-Agrees r n l e (text, s, t) = (text, e ∙ s, t)

  pub tts-Agrees :
      (r : Resolver TtsProviderImpl) (n : ℕ) (l : Live)
      → h r ≡ h l.tts
      → Agrees l
      → Agrees (record l { tts = r; calls = n })
  unfolding Agrees text_parts
  tts-Agrees r n l e (text, s, t) = (text, s, e ∙ t)
