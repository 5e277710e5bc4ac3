-- ===== src/App/Live/Settled.antt =====
-- core/src/app.rs: a change of the settings keeps the llamafile provider settled.
use smolit_assistant.Base.{ℕ, String, Option, none, some, List, [], ◌∷◌}
use smolit_assistant.Providers.{
  provider_name_abrain, provider_name_stt_command, provider_name_tts_command,
}
use smolit_assistant.Providers.Chain.{
  Validation, valid, invalid, validate_text_chain, validate_stt_chain, validate_tts_chain,
}
use smolit_assistant.Settings.{Disk}
use smolit_assistant.Settings.Saves.{
  save_llamafile_override, save_local_http_override, save_text_chain_override,
  clear_text_chain_override, clear_stt_chain_override, clear_tts_chain_override,
}
use smolit_assistant.App.Live.{
  Live, text_parts, rebuild_text, rebuild_stt, rebuild_tts, persisted, SettingsLlamafileUpdate,
  SettingsLocalHttpUpdate, SettingsCloudHttpConfigUpdate, Checked, refused, accepted,
}
use smolit_assistant.App.Live.Updates.{
  merge_llamafile, merge_local_http, merge_cloud_http, llamafile_checked, update_llamafile_config,
  update_stt_config, update_tts_config, local_http_checked, update_local_http_config,
  cloud_http_checked, update_cloud_http_config, key_written, set_cloud_http_api_key, set_llamafile,
  set_local_http,
}
use smolit_assistant.App.Live.Chains.{
  text_chain_checked, update_text_provider_chain, reset_text_provider_chain, stt_chain_checked,
  update_stt_provider_chain, reset_stt_provider_chain, tts_chain_checked, update_tts_provider_chain,
  reset_tts_provider_chain,
}
use smolit_assistant.Providers.Axes.Settled.{AllSettled, text_from_chain-AllSettled}
use smolit_assistant.App.Live.Agrees.{
  SettingsStep, llamafile, stt, tts, local_http, cloud_http, api_key, text_chain, stt_chain,
  tts_chain, reset_text_chain, reset_stt_chain, reset_tts_chain, changed,
}

abbrev pub TextSettled : Live → Type 0
TextSettled l = AllSettled l.text_provider.providers

rebuilt : (now : ℕ) (l : Live) → TextSettled (rebuild_text now l)
unfolding rebuild_text
rebuilt now l = text_from_chain-AllSettled l.live_text_chain (text_parts now l)

llamafile-TextSettled :
    (now : ℕ) (u : SettingsLlamafileUpdate) (mode : Checked (Option String))
    (idle : Checked (Option ℕ)) (l : Live)
    → TextSettled l
    → TextSettled (llamafile_checked now u mode idle l).1
unfolding set_llamafile
llamafile-TextSettled now u (refused message) idle l h = h
llamafile-TextSettled now u (accepted mode) (refused message) l h = h
llamafile-TextSettled now u (accepted mode) (accepted idle) l h =
    let merged = merge_llamafile u mode idle l.live_llamafile in
    rebuilt now
      (persisted (save_llamafile_override merged l.disk) (record l { live_llamafile = merged }))

local_http-TextSettled :
    (now : ℕ) (u : SettingsLocalHttpUpdate) (timeout : Checked (Option ℕ)) (l : Live)
    → TextSettled l
    → TextSettled (local_http_checked now u timeout l).1
unfolding set_local_http
local_http-TextSettled now u (refused message) l h = h
local_http-TextSettled now u (accepted timeout) l h =
    let merged = merge_local_http u timeout l.live_local_http in
    rebuilt now
      (persisted (save_local_http_override merged l.disk) (record l { live_local_http = merged }))

cloud_http-TextSettled :
    (now : ℕ) (u : SettingsCloudHttpConfigUpdate) (timeout : Checked (Option ℕ)) (l : Live)
    → TextSettled l
    → TextSettled (cloud_http_checked now u timeout l).1
cloud_http-TextSettled now u (refused message) l h = h
cloud_http-TextSettled now u (accepted timeout) l h =
    rebuilt now (record l { live_cloud_http = merge_cloud_http u timeout l.live_cloud_http })

key-TextSettled :
    (now : ℕ) (key : Option String) (written : Option (List String) × Disk) (l : Live)
    → TextSettled l
    → TextSettled (key_written now key written l).1
key-TextSettled now key (some e, disk) l h = h
key-TextSettled now key (none, disk) l h =
    rebuilt now (record l { disk = disk; cloud_http_api_key = key })

text_chain-TextSettled :
    (now : ℕ) (checked : Validation) (l : Live)
    → TextSettled l
    → TextSettled (text_chain_checked now checked l).1
text_chain-TextSettled now (invalid e) l h = h
text_chain-TextSettled now (valid chain) l h =
    rebuilt now
      (persisted (save_text_chain_override chain l.disk) (record l { live_text_chain = chain }))

stt_chain-TextSettled :
    (checked : Validation) (l : Live) → TextSettled l → TextSettled (stt_chain_checked checked l).1
unfolding rebuild_stt
stt_chain-TextSettled (invalid e) l h = h
stt_chain-TextSettled (valid chain) l h = h

tts_chain-TextSettled :
    (checked : Validation) (l : Live) → TextSettled l → TextSettled (tts_chain_checked checked l).1
unfolding rebuild_tts
tts_chain-TextSettled (invalid e) l h = h
tts_chain-TextSettled (valid chain) l h = h

persisted-TextSettled :
    (written : Option (List String) × Disk) (l : Live)
    → TextSettled l
    → TextSettled (persisted written l)
persisted-TextSettled (fault, disk) l h = h

pub changed-TextSettled :
    (step : SettingsStep) (l : Live) → TextSettled l → TextSettled (changed step l).1
unfolding changed update_llamafile_config update_local_http_config update_cloud_http_config
    set_cloud_http_api_key update_text_provider_chain update_stt_provider_chain
    update_tts_provider_chain reset_text_provider_chain reset_stt_provider_chain
    reset_tts_provider_chain update_stt_config update_tts_config rebuild_stt rebuild_tts
changed-TextSettled (llamafile now u) l h = llamafile-TextSettled now u _ _ l h
changed-TextSettled (stt u) l h = h
changed-TextSettled (tts u) l h = h
changed-TextSettled (local_http now u) l h = local_http-TextSettled now u _ l h
changed-TextSettled (cloud_http now u) l h = cloud_http-TextSettled now u _ l h
changed-TextSettled (api_key now key) l h = key-TextSettled now _ _ l h
changed-TextSettled (text_chain now chain) l h =
    text_chain-TextSettled now (validate_text_chain chain) l h
changed-TextSettled (stt_chain chain) l h = stt_chain-TextSettled (validate_stt_chain chain) l h
changed-TextSettled (tts_chain chain) l h = tts_chain-TextSettled (validate_tts_chain chain) l h
changed-TextSettled (reset_text_chain now) l h =
    text_chain-TextSettled now (validate_text_chain (provider_name_abrain ∷ []))
      (persisted (clear_text_chain_override l.disk) l)
      (persisted-TextSettled (clear_text_chain_override l.disk) l h)
changed-TextSettled reset_stt_chain l h =
    stt_chain-TextSettled (validate_stt_chain (provider_name_stt_command ∷ []))
      (persisted (clear_stt_chain_override l.disk) l)
      (persisted-TextSettled (clear_stt_chain_override l.disk) l h)
changed-TextSettled reset_tts_chain l h =
    tts_chain-TextSettled (validate_tts_chain (provider_name_tts_command ∷ []))
      (persisted (clear_tts_chain_override l.disk) l)
      (persisted-TextSettled (clear_tts_chain_override l.disk) l h)
