-- ===== src/Config.antt =====
-- core/src/config.rs: the configuration records and their defaults.
pub mod Values
pub mod Dotenv
pub mod Load
pub mod Strict
use smolit_assistant.Base.{ℕ, String, Bool, true, false, Option, none, List, [], ◌∷◌}

abbrev pub default_abrain_cmd : String
default_abrain_cmd = "abrain"

abbrev pub default_log_level : String
default_log_level = "info"

abbrev pub default_stt_timeout_seconds : ℕ
default_stt_timeout_seconds = 20

abbrev pub default_tts_timeout_seconds : ℕ
default_tts_timeout_seconds = 20

abbrev pub default_ipc_bind : String
default_ipc_bind = "127.0.0.1:8787"

abbrev pub default_interaction_backend : String
default_interaction_backend = "command"

abbrev pub default_interaction_allow_open_app : Bool
default_interaction_allow_open_app = true

abbrev pub default_interaction_allow_focus_window : Bool
default_interaction_allow_focus_window = false

abbrev pub default_interaction_allow_type_text : Bool
default_interaction_allow_type_text = false

abbrev pub default_interaction_allow_shortcuts : Bool
default_interaction_allow_shortcuts = false

abbrev pub default_interaction_require_confirmation : Bool
default_interaction_require_confirmation = true

abbrev pub default_approval_timeout_seconds : ℕ
default_approval_timeout_seconds = 20

abbrev pub default_text_provider_chain : List String
default_text_provider_chain = "abrain" ∷ []

abbrev pub default_stt_provider_chain : List String
default_stt_provider_chain = "command" ∷ []

abbrev pub default_tts_provider_chain : List String
default_tts_provider_chain = "command" ∷ []

abbrev pub default_llamafile_mode : String
default_llamafile_mode = "on_demand"

abbrev pub default_llamafile_idle_timeout_seconds : ℕ
default_llamafile_idle_timeout_seconds = 300

abbrev pub default_llamafile_port : ℕ
default_llamafile_port = 8788

abbrev pub default_llamafile_startup_timeout_seconds : ℕ
default_llamafile_startup_timeout_seconds = 30

abbrev pub default_llamafile_request_timeout_seconds : ℕ
default_llamafile_request_timeout_seconds = 60

abbrev pub allowed_llamafile_modes : List String
allowed_llamafile_modes = "on_demand" ∷ "standby" ∷ []

abbrev pub default_local_http_request_timeout_seconds : ℕ
default_local_http_request_timeout_seconds = 60

abbrev pub default_local_http_prompt_field : String
default_local_http_prompt_field = "prompt"

abbrev pub default_local_http_response_field : String
default_local_http_response_field = "content"

abbrev pub default_cloud_http_request_timeout_seconds : ℕ
default_cloud_http_request_timeout_seconds = 90

abbrev pub default_cloud_http_prompt_field : String
default_cloud_http_prompt_field = "prompt"

abbrev pub default_cloud_http_response_field : String
default_cloud_http_response_field = "content"

abbrev pub default_cloud_http_auth_header : String
default_cloud_http_auth_header = "Authorization"

pub record CliArgs : Type 0 where
  pub abrain_cmd : Option String
  pub log_level : Option String

pub record AudioConfig : Type 0 where
  pub tts_enabled : Bool
  pub tts_cmd : Option String
  pub tts_timeout_seconds : ℕ
  pub stt_enabled : Bool
  pub stt_cmd : Option String
  pub stt_whisper_cpp_cmd : Option String
  pub tts_piper_cmd : Option String
  pub stt_timeout_seconds : ℕ
  pub auto_speak : Bool
  pub stt_provider_chain : List String
  pub tts_provider_chain : List String

pub record IpcConfig : Type 0 where
  pub enabled : Bool
  pub bind : String

pub record InteractionConfig : Type 0 where
  pub enabled : Bool
  pub backend : String
  pub allow_open_application : Bool
  pub allow_focus_window : Bool
  pub allow_type_text : Bool
  pub allow_shortcuts : Bool
  pub require_confirmation : Bool
  pub open_app_cmd_template : Option String
  pub focus_window_cmd_template : Option String

pub record AccessibilityConfig : Type 0 where
  pub rpc_enabled : Bool

pub record ApprovalConfig : Type 0 where
  pub timeout_seconds : ℕ

pub record LlamafileConfig : Type 0 where
  pub enabled : Bool
  pub path : Option String
  pub mode : String
  pub idle_timeout_seconds : ℕ
  pub port : ℕ
  pub startup_timeout_seconds : ℕ
  pub request_timeout_seconds : ℕ

abbrev pub default_llamafile : LlamafileConfig
default_llamafile = record {
  enabled = false;
  path = none;
  mode = default_llamafile_mode;
  idle_timeout_seconds = default_llamafile_idle_timeout_seconds;
  port = default_llamafile_port;
  startup_timeout_seconds = default_llamafile_startup_timeout_seconds;
  request_timeout_seconds = default_llamafile_request_timeout_seconds;
}

pub record LocalHttpConfig : Type 0 where
  pub enabled : Bool
  pub endpoint : Option String
  pub request_timeout_seconds : ℕ
  pub prompt_field : String
  pub response_field : String

abbrev pub default_local_http : LocalHttpConfig
default_local_http = record {
  enabled = false;
  endpoint = none;
  request_timeout_seconds = default_local_http_request_timeout_seconds;
  prompt_field = default_local_http_prompt_field;
  response_field = default_local_http_response_field;
}

pub record CloudHttpConfig : Type 0 where
  pub enabled : Bool
  pub endpoint : Option String
  pub model : Option String
  pub request_timeout_seconds : ℕ
  pub prompt_field : String
  pub response_field : String
  pub auth_header : String

abbrev pub default_cloud_http : CloudHttpConfig
default_cloud_http = record {
  enabled = false;
  endpoint = none;
  model = none;
  request_timeout_seconds = default_cloud_http_request_timeout_seconds;
  prompt_field = default_cloud_http_prompt_field;
  response_field = default_cloud_http_response_field;
  auth_header = default_cloud_http_auth_header;
}

pub record TextProviderConfig : Type 0 where
  pub chain : List String
  pub llamafile : LlamafileConfig
  pub local_http : LocalHttpConfig
  pub cloud_http : CloudHttpConfig

pub record Config : Type 0 where
  pub abrain_cmd : String
  pub log_level : String
  pub audio : AudioConfig
  pub ipc : IpcConfig
  pub interaction : InteractionConfig
  pub accessibility : AccessibilityConfig
  pub approval : ApprovalConfig
  pub text_provider : TextProviderConfig
