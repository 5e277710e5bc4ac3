-- ===== src/App/Live.antt =====
-- core/src/app.rs: the part of the state that the settings act on, what its providers are built from, and
-- the requests that change it.
pub mod Updates
pub mod Chains
pub mod Start
pub mod Agrees
pub mod Settled
pub mod Coherent
pub mod Restart
pub mod Status
pub mod Speech
pub mod Consistent
pub mod Probes
use smolit_assistant.Base.{
  ℕ, ◌+◌, String, Bool, Option, none, some, List, [], ◌∷◌, eqb, if◌then◌else◌, is_some, or_else,
}
use smolit_assistant.Base.Text.Cuts.{◌<>◌}
use smolit_assistant.Config.{Config, AudioConfig, LlamafileConfig, LocalHttpConfig, CloudHttpConfig}
use smolit_assistant.Config.Values.{non_empty, validate_llamafile_mode}
use smolit_assistant.Providers.{
  known_text_kinds, known_stt_kinds, known_tts_kinds, provider_name_abrain,
  provider_name_stt_command, provider_name_tts_command,
}
use smolit_assistant.Providers.Chain.{
  Validation, valid, invalid, validate_text_chain, validate_stt_chain, validate_tts_chain,
  display_chain_error,
}
use smolit_assistant.Providers.Outside.{Outside}
use smolit_assistant.Providers.Resolver.{Resolver}
use smolit_assistant.Providers.Text.{LocalHttpConfigView, CloudHttpConfigView}
use smolit_assistant.Providers.Llamafile.{LlamafileConfigView}
use smolit_assistant.Providers.Axes.{
  TextProviderImpl, SttProviderImpl, TtsProviderImpl, TextParts, text_from_chain, stt_from_chain,
  tts_from_chain,
}
use smolit_assistant.Settings.{
  Disk, load_llamafile_override, load_stt_override, load_tts_override, load_local_http_override,
  load_text_chain_override, load_stt_chain_override, load_tts_chain_override, load_secrets,
}
use smolit_assistant.Settings.Overrides.{
  apply_llamafile_override, apply_stt_override, apply_tts_override, apply_local_http_override,
  overridden,
}
use smolit_assistant.Settings.Saves.{
  save_llamafile_override, save_stt_override, save_tts_override, save_local_http_override,
  save_text_chain_override, save_stt_chain_override, save_tts_chain_override,
  clear_text_chain_override, clear_stt_chain_override, clear_tts_chain_override,
  save_cloud_http_api_key,
}

-- `calls` numbers the calls outside.
pub record Live : Type 0 where
  pub abrain_cmd : String
  pub text_provider : Resolver TextProviderImpl
  pub stt : Resolver SttProviderImpl
  pub tts : Resolver TtsProviderImpl
  pub live_text_chain : List String
  pub live_llamafile : LlamafileConfig
  pub live_audio : AudioConfig
  pub live_local_http : LocalHttpConfig
  pub live_cloud_http : CloudHttpConfig
  pub cloud_http_api_key : Option String
  pub disk : Disk
  pub calls : ℕ

unfoldable pub llamafile_view_from : LlamafileConfig → LlamafileConfigView
llamafile_view_from cfg = record {
  enabled = cfg.enabled;
  path = cfg.path;
  mode = cfg.mode;
  idle_timeout_seconds = cfg.idle_timeout_seconds;
  port = cfg.port;
  startup_timeout_seconds = cfg.startup_timeout_seconds;
  request_timeout_seconds = cfg.request_timeout_seconds;
}

unfoldable pub local_http_view_from : LocalHttpConfig → LocalHttpConfigView
local_http_view_from cfg = record {
  enabled = cfg.enabled;
  endpoint = cfg.endpoint;
  request_timeout_seconds = cfg.request_timeout_seconds;
  prompt_field = cfg.prompt_field;
  response_field = cfg.response_field;
}

unfoldable pub cloud_http_view_from : CloudHttpConfig → Option String → CloudHttpConfigView
cloud_http_view_from cfg api_key = record {
  enabled = cfg.enabled;
  endpoint = cfg.endpoint;
  model = cfg.model;
  request_timeout_seconds = cfg.request_timeout_seconds;
  prompt_field = cfg.prompt_field;
  response_field = cfg.response_field;
  auth_header = cfg.auth_header;
  api_key = api_key;
}

-- What the text resolver is built from, at the reading `now` of the clock.
unfoldable pub text_parts : ℕ → Live → TextParts
unfolding llamafile_view_from local_http_view_from cloud_http_view_from
text_parts now l = record {
  abrain_cmd = l.abrain_cmd;
  llamafile = llamafile_view_from l.live_llamafile;
  local = local_http_view_from l.live_local_http;
  cloud = cloud_http_view_from l.live_cloud_http l.cloud_http_api_key;
  now = now;
}

-- The resolvers, built anew from the live values.
unfoldable pub rebuild_text : ℕ → Live → Live
unfolding text_from_chain text_parts
rebuild_text now l = record l {
  text_provider = text_from_chain l.live_text_chain (text_parts now l);
}

unfoldable pub rebuild_stt : Live → Live
unfolding stt_from_chain
rebuild_stt l = record l { stt = stt_from_chain l.live_audio.stt_provider_chain l.live_audio }

unfoldable pub rebuild_tts : Live → Live
unfolding tts_from_chain
rebuild_tts l = record l { tts = tts_from_chain l.live_audio.tts_provider_chain l.live_audio }

-- A failure to persist is logged, and the live state goes on.
abbrev pub persisted : Option (List String) × Disk → Live → Live
persisted (fault, disk) l = record l { disk = disk }

pub record SettingsLlamafileUpdate : Type 0 where
  pub enabled : Bool
  pub mode : Option String
  pub idle_timeout_seconds : Option ℕ
  pub path : Option String

pub record SettingsSttUpdate : Type 0 where
  pub enabled : Bool
  pub command : Option String

pub record SettingsTtsUpdate : Type 0 where
  pub enabled : Bool
  pub command : Option String
  pub auto_speak : Option Bool

pub record SettingsLocalHttpUpdate : Type 0 where
  pub enabled : Bool
  pub endpoint : Option String
  pub request_timeout_seconds : Option ℕ

pub record SettingsCloudHttpConfigUpdate : Type 0 where
  pub enabled : Bool
  pub endpoint : Option String
  pub model : Option String
  pub request_timeout_seconds : Option ℕ

-- An optional value of a request: the message that refuses it, or the value.
pub data Checked (A : Type 0) : Type 0 where
  refused : String → Checked A
  accepted : A → Checked A

unfoldable pub check_mode : Option String → Checked (Option String)
unfolding validate_llamafile_mode
check_mode none = accepted none
check_mode (some raw) = elim (validate_llamafile_mode raw) [
  | some canonical ↦ accepted (some canonical)
  | none ↦ refused ("unknown llamafile mode `" <> (raw <> "` — expected one of on_demand, standby"))
]

abbrev pub check_positive : String → Option ℕ → Checked (Option ℕ)
check_positive field none = accepted none
check_positive field (some n) =
    if eqb n 0 then refused (field <> " must be greater than 0") else accepted (some n)

-- `Ok(())`, or the message of the error.
abbrev pub Answered : Type 0
Answered = Option String × Live
