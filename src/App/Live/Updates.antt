-- ===== src/App/Live/Updates.antt =====
-- core/src/app.rs: the updates of the settings (update_*_config, set_cloud_http_api_key).
use smolit_assistant.App.Live.{
  Checked, Live, rebuild_text, rebuild_stt, rebuild_tts, persisted, SettingsLlamafileUpdate,
  SettingsSttUpdate, SettingsTtsUpdate, SettingsLocalHttpUpdate, SettingsCloudHttpConfigUpdate,
  check_mode, check_positive, Answered, refused, accepted,
}
use smolit_assistant.Base.{ℕ, String, Option, none, some, List, [], ◌∷◌, or_else}
use smolit_assistant.Base.Text.Cuts.{◌<>◌}
use smolit_assistant.Config.{AudioConfig, LlamafileConfig, LocalHttpConfig, CloudHttpConfig}
use smolit_assistant.Config.Values.{non_empty}
use smolit_assistant.Settings.{Disk}
use smolit_assistant.Settings.Overrides.{overridden}
use smolit_assistant.Settings.Saves.{
  save_llamafile_override, save_stt_override, save_tts_override, save_local_http_override,
  save_cloud_http_api_key,
}

unfoldable pub merge_llamafile :
    SettingsLlamafileUpdate → Option String → Option ℕ → LlamafileConfig → LlamafileConfig
unfolding overridden
merge_llamafile update mode idle cfg = record cfg {
  enabled = update.enabled;
  mode = or_else mode cfg.mode;
  idle_timeout_seconds = or_else idle cfg.idle_timeout_seconds;
  path = overridden update.path cfg.path;
}

unfoldable pub set_llamafile : ℕ → LlamafileConfig → Live → Live
unfolding rebuild_text save_llamafile_override
set_llamafile now merged l =
    rebuild_text now
      (persisted (save_llamafile_override merged l.disk) (record l { live_llamafile = merged }))

abbrev pub llamafile_checked :
    ℕ → SettingsLlamafileUpdate → Checked (Option String) → Checked (Option ℕ) → Live → Answered
llamafile_checked now update (refused message) idle l = (some message, l)
llamafile_checked now update (accepted mode) (refused message) l = (some message, l)
llamafile_checked now update (accepted mode) (accepted idle) l =
    (none, set_llamafile now (merge_llamafile update mode idle l.live_llamafile) l)

unfoldable pub update_llamafile_config : ℕ → SettingsLlamafileUpdate → Live → Answered
unfolding check_mode merge_llamafile set_llamafile
update_llamafile_config now update l =
    llamafile_checked now update (check_mode update.mode)
      (check_positive "idle_timeout_seconds" update.idle_timeout_seconds) l

unfoldable pub merge_stt : SettingsSttUpdate → AudioConfig → AudioConfig
unfolding overridden
merge_stt update audio = record audio {
  stt_enabled = update.enabled;
  stt_cmd = overridden update.command audio.stt_cmd;
}

unfoldable pub update_stt_config : SettingsSttUpdate → Live → Answered
unfolding merge_stt save_stt_override rebuild_stt
update_stt_config update l =
    let merged = merge_stt update l.live_audio in
    (
      none,
      rebuild_stt (persisted (save_stt_override merged l.disk) (record l { live_audio = merged })),
    )

unfoldable pub merge_tts : SettingsTtsUpdate → AudioConfig → AudioConfig
unfolding overridden
merge_tts update audio = record audio {
  tts_enabled = update.enabled;
  tts_cmd = overridden update.command audio.tts_cmd;
  auto_speak = or_else update.auto_speak audio.auto_speak;
}

unfoldable pub update_tts_config : SettingsTtsUpdate → Live → Answered
unfolding merge_tts save_tts_override rebuild_tts
update_tts_config update l =
    let merged = merge_tts update l.live_audio in
    (
      none,
      rebuild_tts (persisted (save_tts_override merged l.disk) (record l { live_audio = merged })),
    )

unfoldable pub merge_local_http :
    SettingsLocalHttpUpdate → Option ℕ → LocalHttpConfig → LocalHttpConfig
unfolding overridden
merge_local_http update timeout cfg = record cfg {
  enabled = update.enabled;
  endpoint = overridden update.endpoint cfg.endpoint;
  request_timeout_seconds = or_else timeout cfg.request_timeout_seconds;
}

unfoldable pub set_local_http : ℕ → LocalHttpConfig → Live → Live
unfolding rebuild_text save_local_http_override
set_local_http now merged l =
    rebuild_text now
      (persisted (save_local_http_override merged l.disk) (record l { live_local_http = merged }))

abbrev pub local_http_checked : ℕ → SettingsLocalHttpUpdate → Checked (Option ℕ) → Live → Answered
local_http_checked now update (refused message) l = (some message, l)
local_http_checked now update (accepted timeout) l =
    (none, set_local_http now (merge_local_http update timeout l.live_local_http) l)

unfoldable pub update_local_http_config : ℕ → SettingsLocalHttpUpdate → Live → Answered
unfolding merge_local_http set_local_http
update_local_http_config now update l =
    local_http_checked now update
      (check_positive "request_timeout_seconds" update.request_timeout_seconds) l

unfoldable pub merge_cloud_http :
    SettingsCloudHttpConfigUpdate → Option ℕ → CloudHttpConfig → CloudHttpConfig
unfolding overridden
merge_cloud_http update timeout cfg = record cfg {
  enabled = update.enabled;
  endpoint = overridden update.endpoint cfg.endpoint;
  model = overridden update.model cfg.model;
  request_timeout_seconds = or_else timeout cfg.request_timeout_seconds;
}

abbrev pub cloud_http_checked :
    ℕ → SettingsCloudHttpConfigUpdate → Checked (Option ℕ) → Live → Answered
cloud_http_checked now update (refused message) l = (some message, l)
cloud_http_checked now update (accepted timeout) l = (
  none,
  rebuild_text now
      (record l { live_cloud_http = merge_cloud_http update timeout l.live_cloud_http }),
)

unfoldable pub update_cloud_http_config : ℕ → SettingsCloudHttpConfigUpdate → Live → Answered
unfolding merge_cloud_http rebuild_text
update_cloud_http_config now update l =
    cloud_http_checked now update
      (check_positive "request_timeout_seconds" update.request_timeout_seconds) l

-- `root_cause`: the innermost message.
abbrev pub root_cause : List String → String
root_cause [] = ""
root_cause (m ∷ []) = m
root_cause (m ∷ n ∷ ms) = root_cause (n ∷ ms)

-- The key is taken only if it was written.
abbrev pub key_written : ℕ → Option String → Option (List String) × Disk → Live → Answered
key_written now key (some e, disk) l =
    (some ("failed to persist cloud_http api key: " <> root_cause e), record l { disk = disk })
key_written now key (none, disk) l =
    (none, rebuild_text now (record l { disk = disk; cloud_http_api_key = key }))

unfoldable pub set_cloud_http_api_key : ℕ → Option String → Live → Answered
unfolding non_empty save_cloud_http_api_key rebuild_text
set_cloud_http_api_key now key l =
    key_written now (non_empty key) (save_cloud_http_api_key (non_empty key) l.disk) l
