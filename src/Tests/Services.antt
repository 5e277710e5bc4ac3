-- ===== src/Tests/Services.antt =====
-- The theorems on the requests of text, speech, status and settings, applied to concrete inputs.
use smolit_assistant.Base.{
  ◌≡◌, ◌==◌, if◌then◌else◌, refl, String, Option, none, some, true, List, [], ◌∷◌,
}
use smolit_assistant.App.Live.{Live}
use smolit_assistant.App.Live.Start.{start}
use smolit_assistant.App.Live.Status.{build_status_payload}
use smolit_assistant.App.Live.Status.Masked.{masked_config, masked, build_status_payload-masked}
use smolit_assistant.App.Live.Probes.{Metadata, regular_file, probe_llamafile, probe_stt, probe_tts}
use smolit_assistant.App.Live.Consistent.{IsConsistent}
use smolit_assistant.Ipc.Services.{
  Services, submit_text, speak_text, settings_set_text_provider_chain, voice_once, handle_service,
  planned, started,
}
use smolit_assistant.System.Whole.Consistent.{boot_run-IsConsistent}
use smolit_assistant.Ipc.Services.Concluded.{
  Concludes, is_answered, is_spoken, is_listened, handle_service-Concludes,
}
use smolit_assistant.Messages.{query, speech}
use smolit_assistant.App.State.{next_action_id}
use smolit_assistant.App.Live.Speech.{handle_text_query, speak_with_lifecycle_events}
use smolit_assistant.Settings.{Disk}
use smolit_assistant.System.{requests, elapses, finishes}
use smolit_assistant.System.Whole.{WholeEvent, acts, serves, checks, boot, run_whole}
use smolit_assistant.System.Whole.Guarded.{boot-unapproved_world}
use smolit_assistant.Ipc.{interaction_open_application}
use smolit_assistant.Config.Load.{lookup, load}
use smolit_assistant.Config.Strict.{IsNegated}
use smolit_assistant.System.Gate.{IsApproval}
use smolit_assistant.Ipc.Gated.{Approves}
use smolit_assistant.Tests.Fixtures.{core, env}
use smolit_assistant.Tests.Providers.{world}
use smolit_assistant.Tests.Settings.{args, config, disk, live}

abbrev stat : String → Metadata
stat path = regular_file true

abbrev services : Services
services = record {
  config = config;
  outside = world;
  stat = stat;
  accessibility_probe = "unavailable";
  accessibility_probe_reason = "no_session_bus";
}

-- A disk that holds nothing.
abbrev blank : Disk
blank = record disk { dir = none; llamafile = none; stt = none; tts = none; local_http = none }

build_status_payload-masked_example :
    build_status_payload (masked_config config) "unavailable" "no_session_bus" (masked blank live)
    ≡ build_status_payload config "unavailable" "no_session_bus" live
build_status_payload-masked_example =
    build_status_payload-masked config "unavailable" "no_session_bus" blank live

-- The three local commands are set, and the llamafile is in the chain.
abbrev set_up : String → Option String
set_up key =
    if key == "SMOLIT_TEXT_PROVIDER_CHAIN"
    then some "llamafile_local,abrain"
    else if key == "SMOLIT_LLAMAFILE_ENABLED"
    then some "true"
    else some "/usr/bin/tool"

abbrev prepared : Live
prepared = start (load args set_up []) disk 0

probes_test :
    ((probe_llamafile stat prepared).ok ≡ true)
    × ((probe_stt stat prepared).ok ≡ true)
    × ((probe_tts stat prepared).ok ≡ true)
unfolding probe_llamafile probe_stt probe_tts start load
probes_test = (refl, refl, refl)

-- Nothing is set.
abbrev unset : String → Option String
unset key = none

abbrev events : List WholeEvent
events =
    serves (submit_text "hello")
    ∷ serves (settings_set_text_provider_chain ("abrain" ∷ []))
    ∷ serves voice_once
    ∷ acts (requests (interaction_open_application "calendar"))
    ∷ checks 7
    ∷ acts (elapses 0)
    ∷ acts (finishes 0)
    ∷ []

boot-unapproved_world_example :
    (run_whole env services events (boot args unset [] disk 16 0 [])).0.world ≡ []
unfolding lookup IsNegated IsApproval Approves
boot-unapproved_world_example =
    boot-unapproved_world env services args unset [] disk 16 0 [] events (λ h. h)
      ((λ h. h), ((λ h. h), ((λ h. h), tt)))

boot_run-IsConsistent_example :
    IsConsistent (run_whole env services events (boot args unset [] disk 16 0 [])).1
boot_run-IsConsistent_example = boot_run-IsConsistent env services args unset [] disk 16 0 [] events

handle_service-Concludes_example :
    let id = (next_action_id core).0 in
    Concludes
      (is_answered (handle_text_query world "hello" live).0)
      id
      (planned id query "Process text request" ∷ started id ∷ [])
      (handle_service services (submit_text "hello") core live).0
    × Concludes
        (is_spoken (speak_with_lifecycle_events world "hello" "speak_text" (some id) live).1)
        id
        (planned id speech "Speak text" ∷ started id ∷ [])
        (handle_service services (speak_text "hello") core live).0
    × Concludes
        (is_listened services live)
        id
        (planned id speech "Voice request" ∷ started id ∷ [])
        (handle_service services voice_once core live).0
handle_service-Concludes_example = handle_service-Concludes services "hello" core live
