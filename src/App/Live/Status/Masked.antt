-- ===== src/App/Live/Status/Masked.antt =====
-- core/src/app.rs: what the status tells of the key, the paths, the endpoints and the commands, wherever
-- the core keeps them.
use smolit_assistant.Base.{
  ◌≡◌, refl, String, Option, none, some, List, [], ◌∷◌, inl, inr, map, is_empty, trim,
  if◌then◌else◌, Bool-cases, is_some,
}
use smolit_assistant.Config.{Config, AudioConfig, LocalHttpConfig, CloudHttpConfig}
use smolit_assistant.Settings.{Disk}
use smolit_assistant.Providers.Resolver.{Resolver}
use smolit_assistant.Providers.Command.{CommandProvider}
use smolit_assistant.Providers.Axes.{
  TextProviderImpl, abrain, llamafile_local, local_http, cloud_http, SttProviderImpl, whisper_cpp,
  TtsProviderImpl, piper, text_kind_name, stt_kind_name, tts_kind_name, stt_feature_state,
  tts_feature_state, lifecycle_in, llamafile_lifecycle,
}
use smolit_assistant.App.Live.{Live}
use smolit_assistant.App.Live.Status.{is_present, build_status_payload}

-- Of a text only whether it is there, and whether it is blank.
abbrev pub masked_text : Option String → Option String
masked_text none = none
masked_text (some v) = some (if is_empty (trim v) then "" else "*")

abbrev masked_command : CommandProvider → CommandProvider
masked_command p = record p { command = masked_text p.command }

abbrev pub masked_provider : TextProviderImpl → TextProviderImpl
masked_provider (abrain p) = abrain (record p { command = "*" })
masked_provider (llamafile_local p) =
    llamafile_local (record p { config = record (p.config) { path = masked_text p.config.path } })
masked_provider (local_http c) = local_http (record c { endpoint = masked_text c.endpoint })
masked_provider (cloud_http c) =
    cloud_http (record c {
      endpoint = masked_text c.endpoint;
      model = none;
      api_key = masked_text c.api_key;
    })

abbrev masked_stt : SttProviderImpl → SttProviderImpl
masked_stt (SttProviderImpl.command p) = SttProviderImpl.command (masked_command p)
masked_stt (whisper_cpp p) = whisper_cpp (masked_command p)

abbrev masked_tts : TtsProviderImpl → TtsProviderImpl
masked_tts (TtsProviderImpl.command p) = TtsProviderImpl.command (masked_command p)
masked_tts (piper p) = piper (masked_command p)

abbrev each : {P : Type 0} → (P → P) → Resolver P → Resolver P
each f r = record r { providers = map f r.providers }

abbrev masked_audio : AudioConfig → AudioConfig
masked_audio a = record a {
  stt_cmd = masked_text a.stt_cmd;
  tts_cmd = masked_text a.tts_cmd;
  stt_whisper_cpp_cmd = masked_text a.stt_whisper_cpp_cmd;
  tts_piper_cmd = masked_text a.tts_piper_cmd;
}

abbrev masked_local : LocalHttpConfig → LocalHttpConfig
masked_local c = record c { endpoint = masked_text c.endpoint }

abbrev masked_cloud : CloudHttpConfig → CloudHttpConfig
masked_cloud c = record c { endpoint = masked_text c.endpoint; model = none }

-- The configuration of the start without the commands, the paths, the endpoints, the model and the
-- address.
unfoldable pub masked_config : Config → Config
unfolding trim
masked_config config = record config {
  abrain_cmd = "*";
  audio = masked_audio config.audio;
  ipc = record (config.ipc) { bind = "*" };
  interaction = record (config.interaction) {
    open_app_cmd_template = masked_text config.interaction.open_app_cmd_template;
    focus_window_cmd_template = masked_text config.interaction.focus_window_cmd_template;
  };
  text_provider = record (config.text_provider) {
    llamafile = record (config.text_provider.llamafile) {
      path = masked_text config.text_provider.llamafile.path;
    };
    local_http = masked_local config.text_provider.local_http;
    cloud_http = masked_cloud config.text_provider.cloud_http;
  };
}

-- The live state without the key, the paths, the endpoints, the model and the commands; `disk` takes the
-- place of all that is stored.
unfoldable pub masked : Disk → Live → Live
unfolding trim
masked disk l = record l {
  disk = disk;
  abrain_cmd = "*";
  text_provider = each masked_provider l.text_provider;
  stt = each masked_stt l.stt;
  tts = each masked_tts l.tts;
  live_llamafile = record (l.live_llamafile) { path = masked_text l.live_llamafile.path };
  live_audio = masked_audio l.live_audio;
  live_local_http = masked_local l.live_local_http;
  live_cloud_http = masked_cloud l.live_cloud_http;
  cloud_http_api_key = masked_text l.cloud_http_api_key;
}

is_present-masked_text : (o : Option String) → is_present (masked_text o) ≡ is_present o
unfolding trim
is_present-masked_text none = refl
is_present-masked_text (some v) = elim (Bool-cases (is_empty (trim v))) [
  | inl blank ↦ rw (blank, if◌then◌else◌)
  | inr full ↦ rw (full, if◌then◌else◌)
]

is_some-masked_text : (o : Option String) → is_some (masked_text o) ≡ is_some o
is_some-masked_text none = refl
is_some-masked_text (some v) = refl

map_masked :
    {P : Type 0} (name : P → String) (f : P → P) (ps : List P)
    → ((p : P) → name (f p) ≡ name p)
    → map name (map f ps) ≡ map name ps
map_masked name f [] h = refl
map_masked name f (p ∷ ps) h = rw (h p, map_masked name f ps h)

text_kind_masked : (p : TextProviderImpl) → text_kind_name (masked_provider p) ≡ text_kind_name p
unfolding text_kind_name
text_kind_masked (abrain p) = refl
text_kind_masked (llamafile_local p) = refl
text_kind_masked (local_http c) = refl
text_kind_masked (cloud_http c) = refl

stt_kind_masked : (p : SttProviderImpl) → stt_kind_name (masked_stt p) ≡ stt_kind_name p
unfolding stt_kind_name
stt_kind_masked (SttProviderImpl.command p) = refl
stt_kind_masked (whisper_cpp p) = refl

tts_kind_masked : (p : TtsProviderImpl) → tts_kind_name (masked_tts p) ≡ tts_kind_name p
unfolding tts_kind_name
tts_kind_masked (TtsProviderImpl.command p) = refl
tts_kind_masked (piper p) = refl

lifecycle_masked :
    (ps : List TextProviderImpl) → lifecycle_in (map masked_provider ps) ≡ lifecycle_in ps
lifecycle_masked [] = refl
lifecycle_masked (abrain p ∷ ps) = lifecycle_masked ps
lifecycle_masked (llamafile_local p ∷ ps) = refl
lifecycle_masked (local_http c ∷ ps) = lifecycle_masked ps
lifecycle_masked (cloud_http c ∷ ps) = lifecycle_masked ps

stt_state_masked :
    (ps : List SttProviderImpl) (r : Resolver SttProviderImpl)
    → stt_feature_state (record r { providers = map masked_stt ps })
      ≡ stt_feature_state (record r { providers = ps })
unfolding stt_feature_state
stt_state_masked [] r = refl
stt_state_masked (SttProviderImpl.command p ∷ ps) r = rw (is_some-masked_text p.command)
stt_state_masked (whisper_cpp p ∷ ps) r = rw (is_some-masked_text p.command)

tts_state_masked :
    (ps : List TtsProviderImpl) (r : Resolver TtsProviderImpl)
    → tts_feature_state (record r { providers = map masked_tts ps })
      ≡ tts_feature_state (record r { providers = ps })
unfolding tts_feature_state
tts_state_masked [] r = refl
tts_state_masked (TtsProviderImpl.command p ∷ ps) r = rw (is_some-masked_text p.command)
tts_state_masked (piper p ∷ ps) r = rw (is_some-masked_text p.command)

-- The status tells nothing of what is stored on the disk, and of the key, of every command, path and
-- endpoint, in the configuration of the start, in the live values and in the providers, at most whether it
-- is there (and not blank), and nothing of the address and of the cloud's model: with all of these texts
-- masked, and any other disk, it is the same.
pub build_status_payload-masked :
    (config : Config) (probe reason : String) (disk : Disk) (l : Live)
    → build_status_payload (masked_config config) probe reason (masked disk l)
      ≡ build_status_payload config probe reason l
unfolding build_status_payload masked masked_config llamafile_lifecycle
build_status_payload-masked config probe reason disk l = rw (
  map_masked text_kind_name masked_provider l.text_provider.providers text_kind_masked,
  map_masked stt_kind_name masked_stt l.stt.providers stt_kind_masked,
  map_masked tts_kind_name masked_tts l.tts.providers tts_kind_masked,
  lifecycle_masked l.text_provider.providers,
  stt_state_masked l.stt.providers l.stt,
  tts_state_masked l.tts.providers l.tts,
  is_present-masked_text l.live_llamafile.path,
  is_present-masked_text l.live_local_http.endpoint,
  is_present-masked_text l.live_cloud_http.endpoint,
  is_present-masked_text l.live_audio.stt_whisper_cpp_cmd,
  is_present-masked_text l.live_audio.tts_piper_cmd,
  is_some-masked_text l.cloud_http_api_key,
)
