-- ===== src/Settings/Overrides.antt =====
-- core/src/settings_store.rs: apply_*_override, a file laid over the configuration.
use smolit_assistant.Settings.{
  LlamafileOverrideFile, SttOverrideFile, TtsOverrideFile, LocalHttpOverrideFile,
}
use smolit_assistant.Base.{ℕ, String, Option, none, some, if◌then◌else◌, or_else, ltb}
use smolit_assistant.Config.{AudioConfig, LlamafileConfig, LocalHttpConfig}
use smolit_assistant.Config.Values.{some_unless_blank, validate_llamafile_mode}

-- `None` leaves the value, a blank text clears it, another text sets it.
unfoldable pub overridden : Option String → Option String → Option String
unfolding some_unless_blank
overridden none value = value
overridden (some raw) value = some_unless_blank raw

abbrev pub positive_or : Option ℕ → ℕ → ℕ
positive_or none value = value
positive_or (some n) value = if ltb 0 n then n else value

-- An invalid mode is ignored.
unfoldable pub mode_or : Option String → String → String
unfolding validate_llamafile_mode
mode_or none value = value
mode_or (some raw) value = or_else (validate_llamafile_mode raw) value

unfoldable pub apply_llamafile_override : LlamafileConfig → LlamafileOverrideFile → LlamafileConfig
unfolding overridden mode_or
apply_llamafile_override base file = record base {
  enabled = or_else file.enabled base.enabled;
  mode = mode_or file.mode base.mode;
  idle_timeout_seconds = positive_or file.idle_timeout_seconds base.idle_timeout_seconds;
  path = overridden file.path base.path;
}

unfoldable pub apply_stt_override : AudioConfig → SttOverrideFile → AudioConfig
unfolding overridden
apply_stt_override base file = record base {
  stt_enabled = or_else file.enabled base.stt_enabled;
  stt_cmd = overridden file.command base.stt_cmd;
}

unfoldable pub apply_tts_override : AudioConfig → TtsOverrideFile → AudioConfig
unfolding overridden
apply_tts_override base file = record base {
  tts_enabled = or_else file.enabled base.tts_enabled;
  tts_cmd = overridden file.command base.tts_cmd;
  auto_speak = or_else file.auto_speak base.auto_speak;
}

unfoldable pub apply_local_http_override : LocalHttpConfig → LocalHttpOverrideFile → LocalHttpConfig
unfolding overridden
apply_local_http_override base file = record base {
  enabled = or_else file.enabled base.enabled;
  endpoint = overridden file.endpoint base.endpoint;
  request_timeout_seconds = positive_or file.request_timeout_seconds base.request_timeout_seconds;
}
