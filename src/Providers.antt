-- ===== src/Providers.antt =====
-- core/src/providers/{text,stt,tts}.rs: what the three axes share. Each axis declares its own copy of
-- the chain errors, the chain validation, the runtime status and the resolver's bookkeeping, with
-- the same text; the axes below name these copies.
pub mod Chain
pub mod Classes
pub mod Endpoint
pub mod Resolver
pub mod Outside
pub mod Http
pub mod Text
pub mod Llamafile
pub mod Command
pub mod Axes
use smolit_assistant.Base.{String, Bool, Option, List, [], ◌∷◌}

abbrev pub provider_name_abrain : String
provider_name_abrain = "abrain"

abbrev pub provider_name_llamafile_local : String
provider_name_llamafile_local = "llamafile_local"

abbrev pub provider_name_local_http : String
provider_name_local_http = "local_http"

abbrev pub provider_name_cloud_http : String
provider_name_cloud_http = "cloud_http"

abbrev pub known_text_kinds : List String
known_text_kinds =
    provider_name_abrain ∷ provider_name_llamafile_local ∷ provider_name_local_http
    ∷ provider_name_cloud_http ∷ []

abbrev pub provider_name_stt_command : String
provider_name_stt_command = "command"

abbrev pub provider_name_stt_whisper_cpp : String
provider_name_stt_whisper_cpp = "whisper_cpp"

abbrev pub known_stt_kinds : List String
known_stt_kinds = provider_name_stt_command ∷ provider_name_stt_whisper_cpp ∷ []

abbrev pub provider_name_tts_command : String
provider_name_tts_command = "command"

abbrev pub provider_name_tts_piper : String
provider_name_tts_piper = "piper"

abbrev pub known_tts_kinds : List String
known_tts_kinds = provider_name_tts_command ∷ provider_name_tts_piper ∷ []

-- TextProviderError, SttProviderError and TtsProviderError.
pub data ProviderError : Type 0 where
  empty_chain : ProviderError
  all_failed : String → ProviderError

-- TextProviderRuntimeStatus, SttProviderRuntimeStatus and TtsProviderRuntimeStatus.
pub record RuntimeStatus : Type 0 where
  pub configured : String
  pub active : String
  pub availability : String
  pub last_error : Option String
  pub cloud : Bool
