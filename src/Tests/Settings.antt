-- ===== src/Tests/Settings.antt =====
-- The theorems on the configuration and the settings, applied to concrete inputs.
use smolit_assistant.Base.{
  ◌≡◌, ◌↔◌, refl, String, true, false, Option, none, some, List, [], ◌∷◌, ◌==◌, if◌then◌else◌,
  or_option,
}
use smolit_assistant.Config.{Config, CliArgs, LlamafileConfig, default_llamafile}
use smolit_assistant.Config.Load.{lookup, load}
use smolit_assistant.Config.Strict.{IsNegated, IsSane, load-confirmation_iff, load-IsSane}
use smolit_assistant.Providers.{provider_name_abrain}
use smolit_assistant.Providers.Chain.{validate_text_chain}
use smolit_assistant.Settings.{Disk}
use smolit_assistant.Settings.Restart.{IsKept, IsStorable}
use smolit_assistant.App.Live.{Live}
use smolit_assistant.App.Live.Updates.{set_llamafile}
use smolit_assistant.App.Live.Chains.{update_text_provider_chain, reset_text_provider_chain}
use smolit_assistant.App.Live.Start.{start}
use smolit_assistant.App.Live.Agrees.{SettingsStep, text_chain, stt, reset_tts_chain, llamafile}
use smolit_assistant.App.Live.Coherent.{IsCoherent, run_changes, run_changes-IsCoherent}
use smolit_assistant.App.Live.Restart.{
  IsWritable, update_text_provider_chain-start, reset_text_provider_chain-start,
  set_llamafile-start,
}

abbrev pub args : CliArgs
args = record { abrain_cmd = none; log_level = none }

abbrev pub env : String → Option String
env key =
    if key == "SMOLIT_INTERACTION_REQUIRE_CONFIRMATION"
    then some " Off"
    else if key == "SMOLIT_TEXT_PROVIDER_CHAIN"
    then some "local_http,abrain"
    else none

load-confirmation_iff_example :
    ((load args env []).interaction.require_confirmation ≡ false)
    ↔ IsNegated (lookup env [] "SMOLIT_INTERACTION_REQUIRE_CONFIRMATION")
load-confirmation_iff_example = load-confirmation_iff args env []

load-IsSane_example : IsSane (load args env [])
load-IsSane_example = load-IsSane args env []

abbrev pub disk : Disk
disk = record {
  dir = some (record { base = "/home/user"; joined = [] });
  faults = λ k. none;
  changes = 0;
  llamafile = none;
  stt = none;
  tts = none;
  local_http = none;
  text_chain = none;
  stt_chain = none;
  tts_chain = none;
  cloud_http_api_key = none;
}

abbrev pub config : Config
config = load args env []

abbrev pub live : Live
live = start config disk 0

abbrev steps : List SettingsStep
steps =
    text_chain 5 ("ABRAIN" ∷ [])
    ∷ stt (record { enabled = true; command = some " rec " })
    ∷ llamafile 9
        (record { enabled = true; mode = some "cloud"; idle_timeout_seconds = none; path = none })
    ∷ reset_tts_chain
    ∷ []

run_changes-IsCoherent_example : IsCoherent (run_changes steps (start config disk 0))
run_changes-IsCoherent_example = run_changes-IsCoherent config disk 0 steps

live-IsWritable : IsWritable live.disk
unfolding IsWritable start
live-IsWritable = (refl, refl)

update_text_provider_chain-start_example :
    ((update_text_provider_chain 5 ("ABRAIN" ∷ []) live).1.live_text_chain ≡ "abrain" ∷ [])
    × ((start config (update_text_provider_chain 5 ("ABRAIN" ∷ []) live).1.disk 7).live_text_chain
        ≡ "abrain" ∷ [])
unfolding validate_text_chain
update_text_provider_chain-start_example =
    update_text_provider_chain-start ("ABRAIN" ∷ []) ("abrain" ∷ []) 5 7 live config refl
      live-IsWritable

reset_text_provider_chain-start_example :
    (start config (reset_text_provider_chain 5 live).1.disk 7).live_text_chain
    ≡ provider_name_abrain ∷ []
unfolding start
reset_text_provider_chain-start_example = reset_text_provider_chain-start 5 7 live config refl refl

abbrev chosen : LlamafileConfig
chosen = record default_llamafile { enabled = true; path = none }

chosen-IsStorable : IsStorable chosen
unfolding IsStorable IsKept
chosen-IsStorable = (refl, refl, tt)

set_llamafile-start_example :
    ((set_llamafile 5 chosen live).live_llamafile ≡ chosen)
    × ((start config (set_llamafile 5 chosen live).disk 7).live_llamafile
        ≡ record (config.text_provider.llamafile) {
          enabled = chosen.enabled;
          mode = chosen.mode;
          idle_timeout_seconds = chosen.idle_timeout_seconds;
          path = or_option chosen.path config.text_provider.llamafile.path;
        })
set_llamafile-start_example =
    set_llamafile-start chosen 5 7 live config chosen-IsStorable live-IsWritable
