-- ===== src/Providers/Axes.antt =====
-- core/src/providers/{text,stt,tts}.rs: the providers of each axis, and the resolver that is built from
-- a chain.

pub mod Built
pub mod Settled
use smolit_assistant.Base.{
  ℕ, ◌+◌, String, Bool, true, false, Option, none, some, List, [], ◌∷◌, ◌++◌, ◌==◌, if◌then◌else◌,
  map,
}
use smolit_assistant.Base.Failures.{Result, ok, err}
use smolit_assistant.Config.{AudioConfig}
use smolit_assistant.Config.Values.{normalized}
use smolit_assistant.Providers.{
  RuntimeStatus, provider_name_abrain, provider_name_llamafile_local, provider_name_local_http,
  provider_name_cloud_http, provider_name_stt_command, provider_name_stt_whisper_cpp,
  provider_name_tts_command, provider_name_tts_piper,
}
use smolit_assistant.Providers.Classes.{classify_text_error, classify_stt_error, classify_tts_error}
use smolit_assistant.Providers.Outside.{Outside}
use smolit_assistant.Providers.Resolver.{Axis, Resolver}
use smolit_assistant.Providers.Text.{
  AbrainCliProvider, new_abrain, LocalHttpConfigView, CloudHttpConfigView, run_abrain,
  run_local_http, run_cloud_http,
}
use smolit_assistant.Providers.Llamafile.{
  LlamafileConfigView, LlamafileLocalProvider, LlamafileLifecycle, new_llamafile, run_llamafile,
  Run,
}
use smolit_assistant.Providers.Command.{
  CommandProvider, AudioFeatureState, new_feature_state, is_ready, feature_state,
  run_external_stt_command, run_external_tts_command,
}

pub data TextProviderImpl : Type 0 where
  abrain : AbrainCliProvider → TextProviderImpl
  llamafile_local : LlamafileLocalProvider → TextProviderImpl
  local_http : LocalHttpConfigView → TextProviderImpl
  cloud_http : CloudHttpConfigView → TextProviderImpl

pub data SttProviderImpl : Type 0 where
  command : CommandProvider → SttProviderImpl
  whisper_cpp : CommandProvider → SttProviderImpl

pub data TtsProviderImpl : Type 0 where
  command : CommandProvider → TtsProviderImpl
  piper : CommandProvider → TtsProviderImpl

unfoldable pub text_kind_name : TextProviderImpl → String
text_kind_name (abrain p) = provider_name_abrain
text_kind_name (llamafile_local p) = provider_name_llamafile_local
text_kind_name (local_http c) = provider_name_local_http
text_kind_name (cloud_http c) = provider_name_cloud_http

unfoldable pub stt_kind_name : SttProviderImpl → String
stt_kind_name (SttProviderImpl.command p) = provider_name_stt_command
stt_kind_name (whisper_cpp p) = provider_name_stt_whisper_cpp

unfoldable pub tts_kind_name : TtsProviderImpl → String
tts_kind_name (TtsProviderImpl.command p) = provider_name_tts_command
tts_kind_name (piper p) = provider_name_tts_piper

abbrev pub stt_command_of : SttProviderImpl → CommandProvider
stt_command_of (SttProviderImpl.command p) = p
stt_command_of (whisper_cpp p) = p

abbrev pub tts_command_of : TtsProviderImpl → CommandProvider
tts_command_of (TtsProviderImpl.command p) = p
tts_command_of (piper p) = p

abbrev llamafile_attempt :
    Result String × LlamafileLocalProvider × ℕ → Result String × TextProviderImpl × ℕ
llamafile_attempt (r, p, n) = (r, llamafile_local p, n)

module _ (o : Outside) where
  -- `run` of a text provider; the others than llamafile make one call outside at most.
  unfoldable pub text_attempt : String → ℕ → TextProviderImpl → Result String × TextProviderImpl × ℕ
  unfolding run_abrain run_llamafile run_local_http run_cloud_http
  text_attempt input n (abrain p) = (run_abrain o n p input, abrain p, n + 1)
  text_attempt input n (llamafile_local p) = llamafile_attempt (run_llamafile o n p input)
  text_attempt input n (local_http c) = (run_local_http o n c input, local_http c, n + 1)
  text_attempt input n (cloud_http c) = (run_cloud_http o n c input, cloud_http c, n + 1)

  abbrev pub text_axis : String → Axis TextProviderImpl String
  text_axis input = record {
    kind_name = text_kind_name;
    is_cloud = λ p. text_kind_name p == provider_name_cloud_http;
    attempt = text_attempt input;
    classify_error = classify_text_error;
  }

  abbrev pub stt_axis : Axis SttProviderImpl String
  stt_axis = record {
    kind_name = stt_kind_name;
    is_cloud = λ p. false;
    attempt = λ n p. (run_external_stt_command o n (stt_command_of p), p, n + 1);
    classify_error = classify_stt_error;
  }

  abbrev pub tts_axis : String → Axis TtsProviderImpl (Unit {0})
  tts_axis text = record {
    kind_name = tts_kind_name;
    is_cloud = λ p. false;
    attempt = λ n p. (run_external_tts_command o n (tts_command_of p) text, p, n + 1);
    classify_error = classify_tts_error;
  }

abbrev status_of : String → String → RuntimeStatus
status_of configured availability = record {
  configured = configured;
  active = "";
  availability = availability;
  last_error = none;
  cloud = false;
}

unfoldable pub initial_text_status : List TextProviderImpl → RuntimeStatus
unfolding text_kind_name
initial_text_status [] = status_of "none" "unavailable"
initial_text_status (first ∷ rest) = status_of (text_kind_name first) "available"

unfoldable pub initial_stt_status : List SttProviderImpl → RuntimeStatus
unfolding stt_kind_name
initial_stt_status [] = status_of "none" "unavailable"
initial_stt_status (first ∷ rest) =
    status_of (stt_kind_name first)
      (if is_ready (stt_command_of first) then "available" else "unavailable")

unfoldable pub initial_tts_status : List TtsProviderImpl → RuntimeStatus
unfolding tts_kind_name
initial_tts_status [] = status_of "none" "unavailable"
initial_tts_status (first ∷ rest) =
    status_of (tts_kind_name first)
      (if is_ready (tts_command_of first) then "available" else "unavailable")

-- What the text providers are built from; `now` is the reading of the clock at the building.
pub record TextParts : Type 0 where
  pub abrain_cmd : String
  pub llamafile : LlamafileConfigView
  pub local : LocalHttpConfigView
  pub cloud : CloudHttpConfigView
  pub now : ℕ

-- The provider of a kind in normal form; an unknown kind is skipped.
unfoldable pub text_provider_of : TextParts → String → List TextProviderImpl
unfolding new_llamafile
text_provider_of parts kind =
    if kind == provider_name_abrain
    then abrain (new_abrain parts.abrain_cmd) ∷ []
    else if kind == provider_name_llamafile_local
    then llamafile_local (new_llamafile parts.now parts.llamafile) ∷ []
    else if kind == provider_name_local_http
    then local_http parts.local ∷ []
    else if kind == provider_name_cloud_http
    then cloud_http parts.cloud ∷ []
    else []

unfoldable pub text_providers : TextParts → List String → List TextProviderImpl
unfolding normalized text_provider_of
text_providers parts [] = []
text_providers parts (kind ∷ chain) =
    text_provider_of parts (normalized kind) ++ text_providers parts chain

abbrev pub or_abrain : TextParts → List TextProviderImpl → List TextProviderImpl
or_abrain parts [] = abrain (new_abrain parts.abrain_cmd) ∷ []
or_abrain parts (p ∷ ps) = p ∷ ps

abbrev pub text_resolver : List TextProviderImpl → Resolver TextProviderImpl
text_resolver providers = record { providers = providers; status = initial_text_status providers }

unfoldable pub text_from_chain : List String → TextParts → Resolver TextProviderImpl
unfolding text_providers initial_text_status
text_from_chain chain parts = text_resolver (or_abrain parts (text_providers parts chain))

abbrev pub stt_command : AudioConfig → CommandProvider
stt_command c = record {
  enabled = c.stt_enabled;
  command = c.stt_cmd;
  timeout_seconds = c.stt_timeout_seconds;
}

abbrev pub stt_whisper_cpp : AudioConfig → CommandProvider
stt_whisper_cpp c = record {
  enabled = c.stt_enabled;
  command = c.stt_whisper_cpp_cmd;
  timeout_seconds = c.stt_timeout_seconds;
}

abbrev pub tts_command : AudioConfig → CommandProvider
tts_command c = record {
  enabled = c.tts_enabled;
  command = c.tts_cmd;
  timeout_seconds = c.tts_timeout_seconds;
}

abbrev pub tts_piper : AudioConfig → CommandProvider
tts_piper c = record {
  enabled = c.tts_enabled;
  command = c.tts_piper_cmd;
  timeout_seconds = c.tts_timeout_seconds;
}

unfoldable pub stt_provider_of : AudioConfig → String → List SttProviderImpl
stt_provider_of audio kind =
    if kind == provider_name_stt_command
    then SttProviderImpl.command (stt_command audio) ∷ []
    else if kind == provider_name_stt_whisper_cpp
    then whisper_cpp (stt_whisper_cpp audio) ∷ []
    else []

unfoldable pub tts_provider_of : AudioConfig → String → List TtsProviderImpl
tts_provider_of audio kind =
    if kind == provider_name_tts_command
    then TtsProviderImpl.command (tts_command audio) ∷ []
    else if kind == provider_name_tts_piper
    then piper (tts_piper audio) ∷ []
    else []

unfoldable pub stt_providers : AudioConfig → List String → List SttProviderImpl
unfolding normalized stt_provider_of
stt_providers audio [] = []
stt_providers audio (kind ∷ chain) =
    stt_provider_of audio (normalized kind) ++ stt_providers audio chain

unfoldable pub tts_providers : AudioConfig → List String → List TtsProviderImpl
unfolding normalized tts_provider_of
tts_providers audio [] = []
tts_providers audio (kind ∷ chain) =
    tts_provider_of audio (normalized kind) ++ tts_providers audio chain

abbrev pub or_stt_command : AudioConfig → List SttProviderImpl → List SttProviderImpl
or_stt_command audio [] = SttProviderImpl.command (stt_command audio) ∷ []
or_stt_command audio (p ∷ ps) = p ∷ ps

abbrev pub or_tts_command : AudioConfig → List TtsProviderImpl → List TtsProviderImpl
or_tts_command audio [] = TtsProviderImpl.command (tts_command audio) ∷ []
or_tts_command audio (p ∷ ps) = p ∷ ps

abbrev pub stt_resolver : List SttProviderImpl → Resolver SttProviderImpl
stt_resolver providers = record { providers = providers; status = initial_stt_status providers }

abbrev pub tts_resolver : List TtsProviderImpl → Resolver TtsProviderImpl
tts_resolver providers = record { providers = providers; status = initial_tts_status providers }

unfoldable pub stt_from_chain : List String → AudioConfig → Resolver SttProviderImpl
unfolding stt_providers initial_stt_status
stt_from_chain chain audio = stt_resolver (or_stt_command audio (stt_providers audio chain))

unfoldable pub tts_from_chain : List String → AudioConfig → Resolver TtsProviderImpl
unfolding tts_providers initial_tts_status
tts_from_chain chain audio = tts_resolver (or_tts_command audio (tts_providers audio chain))

-- `chain_kinds` of the three axes.
abbrev pub text_kinds : Resolver TextProviderImpl → List String
text_kinds r = map text_kind_name r.providers

abbrev pub stt_kinds : Resolver SttProviderImpl → List String
stt_kinds r = map stt_kind_name r.providers

abbrev pub tts_kinds : Resolver TtsProviderImpl → List String
tts_kinds r = map tts_kind_name r.providers

unfoldable pub stt_feature_state : Resolver SttProviderImpl → AudioFeatureState
stt_feature_state r = elim r.providers [
  | [] ↦ new_feature_state false false
  | p ∷ ps ↦ feature_state (stt_command_of p)
]

unfoldable pub tts_feature_state : Resolver TtsProviderImpl → AudioFeatureState
tts_feature_state r = elim r.providers [
  | [] ↦ new_feature_state false false
  | p ∷ ps ↦ feature_state (tts_command_of p)
]

unfoldable pub stt_is_available : Resolver SttProviderImpl → Bool
stt_is_available r = elim r.providers [ [] ↦ false | p ∷ ps ↦ is_ready (stt_command_of p) ]

unfoldable pub tts_is_available : Resolver TtsProviderImpl → Bool
tts_is_available r = elim r.providers [ [] ↦ false | p ∷ ps ↦ is_ready (tts_command_of p) ]

abbrev pub lifecycle_in : List TextProviderImpl → Option LlamafileLifecycle
lifecycle_in [] = none
lifecycle_in (llamafile_local p ∷ ps) = some p.lifecycle
lifecycle_in (abrain p ∷ ps) = lifecycle_in ps
lifecycle_in (local_http c ∷ ps) = lifecycle_in ps
lifecycle_in (cloud_http c ∷ ps) = lifecycle_in ps

unfoldable pub llamafile_lifecycle : Resolver TextProviderImpl → Option LlamafileLifecycle
llamafile_lifecycle r = lifecycle_in r.providers
