-- ===== src/App/Live/Status.antt =====
-- core/src/app.rs: the status that clients are told (build_status_payload).
pub mod Masked
use smolit_assistant.Base.{
  ℕ, String, Bool, false, not, Option, none, some, List, ◌==◌, any, ◌&&◌, if◌then◌else◌, is_empty,
  trim, is_some,
}
use smolit_assistant.Config.{Config}
use smolit_assistant.Providers.Llamafile.{LlamafileLifecycle, lifecycle_str}
use smolit_assistant.Providers.Axes.{
  text_kinds, stt_kinds, tts_kinds, stt_feature_state, tts_feature_state, llamafile_lifecycle,
}
use smolit_assistant.Messages.{StatusPayload}
use smolit_assistant.App.Live.{Live}

-- Whether an optional text is there and not blank.
abbrev pub is_present : Option String → Bool
is_present none = false
is_present (some v) = not (is_empty (trim v))

abbrev pub lifecycle_text : Option LlamafileLifecycle → Option String
lifecycle_text none = none
lifecycle_text (some lc) = some (lifecycle_str lc)

abbrev pub only_if : {A : Type 0} → Bool → Option A → Option A
only_if b o = if b then o else none

abbrev pub lists : String → List String → Bool
lists kind chain = any (λ k. k == kind) chain

-- `probe` and `reason` are what the probe of the accessibility bus says.
unfoldable pub build_status_payload : Config → String → String → Live → StatusPayload
unfolding stt_feature_state tts_feature_state llamafile_lifecycle lifecycle_str trim
build_status_payload config probe reason l =
    let chain = text_kinds l.text_provider in
    let in_chain = lists "llamafile_local" chain in
    let text = l.text_provider.status in
    let stt_status = l.stt.status in
    let tts_status = l.tts.status in
    let stt_chain = stt_kinds l.stt in
    let tts_chain = tts_kinds l.tts in
    let secret_present = is_some l.cloud_http_api_key in
    record {
      tts_enabled = (tts_feature_state l.tts).enabled;
      tts_available = (tts_feature_state l.tts).available;
      stt_enabled = (stt_feature_state l.stt).enabled;
      stt_available = (stt_feature_state l.stt).available;
      auto_speak = l.live_audio.auto_speak;
      ipc_enabled = config.ipc.enabled;
      interaction_enabled = config.interaction.enabled;
      interaction_backend = config.interaction.backend;
      approval_timeout_seconds = config.approval.timeout_seconds;
      accessibility_probe = probe;
      accessibility_probe_reason = reason;
      text_provider_configured = text.configured;
      text_provider_active = text.active;
      text_provider_availability = text.availability;
      text_provider_last_error = text.last_error;
      text_provider_cloud = text.cloud;
      text_provider_chain = chain;
      llamafile_in_chain = in_chain;
      llamafile_enabled = l.live_llamafile.enabled;
      llamafile_configured = l.live_llamafile.enabled && is_present l.live_llamafile.path;
      llamafile_lifecycle = only_if in_chain (lifecycle_text (llamafile_lifecycle l.text_provider));
      llamafile_mode = only_if in_chain (some l.live_llamafile.mode);
      llamafile_idle_timeout_seconds =
          only_if in_chain (some l.live_llamafile.idle_timeout_seconds);
      stt_provider_configured = stt_status.configured;
      stt_provider_active = stt_status.active;
      stt_provider_availability = stt_status.availability;
      stt_provider_last_error = stt_status.last_error;
      stt_provider_cloud = stt_status.cloud;
      stt_provider_chain = stt_chain;
      stt_whisper_cpp_in_chain = lists "whisper_cpp" stt_chain;
      stt_whisper_cpp_configured = is_present l.live_audio.stt_whisper_cpp_cmd;
      tts_provider_configured = tts_status.configured;
      tts_provider_active = tts_status.active;
      tts_provider_availability = tts_status.availability;
      tts_provider_last_error = tts_status.last_error;
      tts_provider_cloud = tts_status.cloud;
      tts_provider_chain = tts_chain;
      tts_piper_in_chain = lists "piper" tts_chain;
      tts_piper_configured = is_present l.live_audio.tts_piper_cmd;
      local_http_in_chain = lists "local_http" chain;
      local_http_enabled = l.live_local_http.enabled;
      local_http_configured = l.live_local_http.enabled && is_present l.live_local_http.endpoint;
      cloud_http_in_chain = lists "cloud_http" chain;
      cloud_http_enabled = l.live_cloud_http.enabled;
      cloud_http_configured =
          (l.live_cloud_http.enabled && is_present l.live_cloud_http.endpoint) && secret_present;
      cloud_http_secret_present = secret_present;
    }
