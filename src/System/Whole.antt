-- ===== src/System/Whole.antt =====
-- The whole core: the steps of the action flows, the requests of text, speech, status and settings
-- (core/src/ipc/server.rs), and the checks of the llamafile watchdog (core/src/providers/text.rs), from
-- the start of core/src/main.rs on: Config::load, then App::new.
pub mod Guarded
pub mod Consistent
use smolit_assistant.Base.{ℕ, String, Bool, true, Option, List, [], ◌∷◌, if◌then◌else◌, map}
use smolit_assistant.Config.{Config, CliArgs, InteractionConfig}
use smolit_assistant.Config.Load.{load}
use smolit_assistant.Interaction.{InteractionPolicy}
use smolit_assistant.Audit.Store.{with_capacity}
use smolit_assistant.Providers.Llamafile.{LlamafileLocalProvider, watchdog_tick}
use smolit_assistant.Providers.Axes.{
  TextProviderImpl, abrain, llamafile_local, local_http, cloud_http,
}
use smolit_assistant.Settings.{Disk}
use smolit_assistant.App.State.{Env, App, new_app}
use smolit_assistant.App.Live.{Live}
use smolit_assistant.App.Live.Start.{start}
use smolit_assistant.Ipc.Services.{Services, ServiceMessage, handle_service}
use smolit_assistant.System.{Event, step}

unfoldable pub policy_of : InteractionConfig → InteractionPolicy
policy_of c = record {
  enabled = c.enabled;
  allow_open_application = c.allow_open_application;
  allow_focus_window = c.allow_focus_window;
  allow_type_text = c.allow_type_text;
  allow_shortcuts = c.allow_shortcuts;
  require_confirmation = c.require_confirmation;
}

-- `capacity` is what the audit store is asked for, `now` the reading of the clock.
unfoldable pub boot :
    {W : Type 0}
    → CliArgs
    → (String → Option String)
    → List (String × String)
    → Disk
    → ℕ
    → ℕ
    → W
    → App W × Live
unfolding load policy_of new_app start
boot args env dotenv disk capacity now w =
    let config = load args env dotenv in
    (
      new_app (policy_of config.interaction) config.approval.timeout_seconds
          (with_capacity capacity) w,
      start config disk now,
    )

-- The watchdog of a provider runs once a completion has succeeded, until it has stopped the server.
unfoldable pub watched : ℕ → TextProviderImpl → TextProviderImpl
unfolding watchdog_tick
watched now (abrain p) = abrain p
watched now (llamafile_local p) =
    llamafile_local (if p.watchdog_running then watchdog_tick now p else p)
watched now (local_http c) = local_http c
watched now (cloud_http c) = cloud_http c

unfoldable pub watch : ℕ → Live → Live
unfolding watched
watch now l = record l {
  text_provider = record (l.text_provider) {
    providers = map (watched now) l.text_provider.providers;
  };
}

pub data WholeEvent : Type 0 where
  acts : Event → WholeEvent
  serves : ServiceMessage → WholeEvent
  checks : ℕ → WholeEvent

module _ {W : Type 0} (env : Env W) (v : Services) where
  unfoldable pub whole_step : WholeEvent → App W × Live → App W × Live
  unfolding step handle_service watch
  whole_step (acts e) (s, l) = ((step env e s).1, l)
  whole_step (serves msg) (s, l) = let (out, s1, l1) = handle_service v msg s l in (s1, l1)
  whole_step (checks now) (s, l) = (s, watch now l)

  unfoldable pub run_whole : List WholeEvent → App W × Live → App W × Live
  unfolding whole_step
  run_whole [] state = state
  run_whole (e ∷ es) state = run_whole es (whole_step e state)
