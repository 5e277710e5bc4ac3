-- ===== src/Messages/Payloads.antt =====
-- core/src/app.rs and core/src/ipc/protocol.rs: what the messages of the status, the probes and the
-- speech output carry.
use smolit_assistant.Base.{ℕ, String, Bool, Option, List}

pub record StatusPayload : Type 0 where
  pub tts_enabled : Bool
  pub tts_available : Bool
  pub stt_enabled : Bool
  pub stt_available : Bool
  pub auto_speak : Bool
  pub ipc_enabled : Bool
  pub interaction_enabled : Bool
  pub interaction_backend : String
  pub approval_timeout_seconds : ℕ
  pub accessibility_probe : String
  pub accessibility_probe_reason : String
  pub text_provider_configured : String
  pub text_provider_active : String
  pub text_provider_availability : String
  pub text_provider_last_error : Option String
  pub text_provider_cloud : Bool
  pub text_provider_chain : List String
  pub llamafile_in_chain : Bool
  pub llamafile_enabled : Bool
  pub llamafile_configured : Bool
  pub llamafile_lifecycle : Option String
  pub llamafile_mode : Option String
  pub llamafile_idle_timeout_seconds : Option ℕ
  pub stt_provider_configured : String
  pub stt_provider_active : String
  pub stt_provider_availability : String
  pub stt_provider_last_error : Option String
  pub stt_provider_cloud : Bool
  pub stt_provider_chain : List String
  pub stt_whisper_cpp_in_chain : Bool
  pub stt_whisper_cpp_configured : Bool
  pub tts_provider_configured : String
  pub tts_provider_active : String
  pub tts_provider_availability : String
  pub tts_provider_last_error : Option String
  pub tts_provider_cloud : Bool
  pub tts_provider_chain : List String
  pub tts_piper_in_chain : Bool
  pub tts_piper_configured : Bool
  pub local_http_in_chain : Bool
  pub local_http_enabled : Bool
  pub local_http_configured : Bool
  pub cloud_http_in_chain : Bool
  pub cloud_http_enabled : Bool
  pub cloud_http_configured : Bool
  pub cloud_http_secret_present : Bool

pub record SettingsProbeResultPayload : Type 0 where
  pub axis : String
  pub ok : Bool
  pub class : String
  pub message : String
  pub lifecycle : Option String
  pub in_chain : Bool
  pub enabled : Bool
  pub configured : Bool

pub record SpeakingStartedPayload : Type 0 where
  pub source : String
  pub provider : String
  pub action_id : Option String

pub record SpeakingEndedPayload : Type 0 where
  pub source : String
  pub provider : String
  pub ok : Bool
  pub error_class : Option String
  pub action_id : Option String
