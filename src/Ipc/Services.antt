-- ===== src/Ipc/Services.antt =====
-- core/src/ipc/server.rs and core/src/ipc/protocol.rs: the requests of text, speech, status and settings,
-- and their handlers.
pub mod Harmless
pub mod Consistent
pub mod Concluded
use smolit_assistant.Base.{
  ℕ, ◌+◌, String, Bool, Option, none, some, List, [], ◌∷◌, ◌++◌, if◌then◌else◌,
}
use smolit_assistant.Config.{Config}
use smolit_assistant.Messages.{
  ActionKind, query, speech, ActionPhase, ActionStatus, unknown_target, OutgoingMessage, error,
  action_planned, action_started, action_step, action_completed, action_failed, pong, status,
  thinking, heard, response, settings_probe_result,
}
use smolit_assistant.Providers.Outside.{Outside}
use smolit_assistant.Providers.Resolver.{Resolution, answered, refused}
use smolit_assistant.Providers.Axes.{stt_is_available}
use smolit_assistant.App.State.{App, next_action_id, broadcast}
use smolit_assistant.App.Live.{
  Live, Answered, SettingsLlamafileUpdate, SettingsSttUpdate, SettingsTtsUpdate,
  SettingsLocalHttpUpdate, SettingsCloudHttpConfigUpdate,
}
use smolit_assistant.App.Live.Updates.{
  update_llamafile_config, update_stt_config, update_tts_config, update_local_http_config,
  update_cloud_http_config, set_cloud_http_api_key,
}
use smolit_assistant.App.Live.Chains.{
  update_text_provider_chain, reset_text_provider_chain, update_stt_provider_chain,
  reset_stt_provider_chain, update_tts_provider_chain, reset_tts_provider_chain,
}
use smolit_assistant.App.Live.Status.{build_status_payload}
use smolit_assistant.App.Live.Probes.{
  Metadata, probe_llamafile, probe_stt, probe_tts, probe_local_http, probe_cloud_http,
}
use smolit_assistant.App.Live.Speech.{
  handle_text_query, handle_voice_once, speak_with_lifecycle_events, maybe_auto_speak, text_error,
  stt_error, tts_error, Spoken,
}

-- The requests of `IncomingMessage` that reach the providers and the settings.
pub data ServiceMessage : Type 0 where
  ping : ServiceMessage
  get_status : ServiceMessage
  submit_text : String → ServiceMessage
  speak_text : String → ServiceMessage
  voice_once : ServiceMessage
  settings_set_llamafile_config : SettingsLlamafileUpdate → ServiceMessage
  settings_probe_llamafile : ServiceMessage
  settings_set_stt_config : SettingsSttUpdate → ServiceMessage
  settings_set_tts_config : SettingsTtsUpdate → ServiceMessage
  settings_probe_stt : ServiceMessage
  settings_probe_tts : ServiceMessage
  settings_set_local_http_config : SettingsLocalHttpUpdate → ServiceMessage
  settings_probe_local_http : ServiceMessage
  settings_set_text_provider_chain : List String → ServiceMessage
  settings_reset_text_provider_chain : ServiceMessage
  settings_set_cloud_http_config : SettingsCloudHttpConfigUpdate → ServiceMessage
  settings_set_cloud_http_secret : Option String → ServiceMessage
  settings_probe_cloud_http : ServiceMessage
  settings_set_stt_provider_chain : List String → ServiceMessage
  settings_reset_stt_provider_chain : ServiceMessage
  settings_set_tts_provider_chain : List String → ServiceMessage
  settings_reset_tts_provider_chain : ServiceMessage

unfoldable pub planned : String → ActionKind → String → OutgoingMessage
planned action_id kind title = action_planned (record {
  action_id = action_id;
  action_kind = kind;
  title = title;
  description = none;
  target = unknown_target;
  mapping = none;
  correlation_id = none;
})

unfoldable pub started : String → OutgoingMessage
started action_id =
    action_started
      (record { action_id = action_id; phase = ActionPhase.started; correlation_id = none })

unfoldable pub step : String → String → OutgoingMessage
step action_id title =
    action_step
      (record { action_id = action_id; title = title; description = none; correlation_id = none })

unfoldable pub completed : String → OutgoingMessage
completed action_id = action_completed (record {
  action_id = action_id;
  status = ActionStatus.completed;
  message = none;
  correlation_id = none;
})

unfoldable pub failed : String → String → OutgoingMessage
failed action_id message = action_failed (record {
  action_id = action_id;
  status = ActionStatus.failed;
  message = message;
  error = none;
  correlation_id = none;
})

-- What the handlers are given from outside: the configuration of the start, the calls of the providers,
-- the file system, and what the probe of the accessibility bus says.
pub record Services : Type 0 where
  pub config : Config
  pub outside : Outside
  pub stat : String → Metadata
  pub accessibility_probe : String
  pub accessibility_probe_reason : String

-- The answer to a request, and the state behind it.
abbrev pub Handled : Type 0 → Type 0
Handled W = List OutgoingMessage × App W × Live

abbrev pub told : Services → Live → OutgoingMessage
told v l =
    status (build_status_payload v.config v.accessibility_probe v.accessibility_probe_reason l)

-- The events of the automatic speech are broadcast one by one.
unfoldable pub broadcast_each : {W : Type 0} → List OutgoingMessage → App W → App W
unfolding broadcast
broadcast_each [] s = s
broadcast_each (msg ∷ msgs) s = broadcast_each msgs (broadcast msg s)

module _ {W : Type 0} (v : Services) where
  abbrev pub replied : App W → Answered → Handled W
  replied s (none, l) = (told v l ∷ [], s, l)
  replied s (some message, l) = (error message ∷ [], s, l)

  abbrev pub gave_up : List OutgoingMessage → String → String → App W → Live → Handled W
  gave_up out id message s l = (out ++ error message ∷ failed id message ∷ [], s, l)

  abbrev pub auto_spoken : List OutgoingMessage → App W → List OutgoingMessage × Live → Handled W
  auto_spoken out s (events, l) = (out, broadcast_each events s, l)

  -- The end of a text query: the answer is spoken once it is among the messages.
  abbrev pub text_answer :
      List OutgoingMessage → String → App W → Resolution String × Live → Handled W
  text_answer out id s (answered text, l) =
      auto_spoken (out ++ response text ∷ completed id ∷ []) s (maybe_auto_speak v.outside text l)
  text_answer out id s (refused e, l) = gave_up out id (text_error e) s l

  abbrev pub submitted : String → Live → String × App W → Handled W
  submitted text l (id, s) =
      text_answer
        (planned id query "Process text request"
          ∷ started id
          ∷ step id "Dispatch to ABrain"
          ∷ thinking
          ∷ [])
        id s (handle_text_query v.outside text l)

  unfoldable pub handle_submit_text : String → App W → Live → Handled W
  unfolding planned started step completed failed next_action_id handle_text_query maybe_auto_speak
      broadcast_each
  handle_submit_text text s l = submitted text l (next_action_id s)

  abbrev pub speech_answer : List OutgoingMessage → String → App W → Spoken → Handled W
  speech_answer out id s (events, some (answered done), l) =
      (out ++ (events ++ completed id ∷ []), s, l)
  speech_answer out id s (events, some (refused e), l) =
      gave_up (out ++ events) id (tts_error e) s l
  speech_answer out id s (events, none, l) = gave_up (out ++ events) id "TTS is not available." s l

  abbrev pub spoken_text : String → Live → String × App W → Handled W
  spoken_text text l (id, s) =
      speech_answer (planned id speech "Speak text" ∷ started id ∷ step id "TTS playback" ∷ []) id s
        (speak_with_lifecycle_events v.outside text "speak_text" (some id) l)

  unfoldable pub handle_speak_text : String → App W → Live → Handled W
  unfolding planned started step completed failed next_action_id speak_with_lifecycle_events
  handle_speak_text text s l = spoken_text text l (next_action_id s)

  abbrev pub voice_answer :
      List OutgoingMessage → String → App W → Resolution String × Live → Handled W
  voice_answer out id s (refused e, l) = gave_up out id (stt_error e) s l
  voice_answer out id s (answered text, l) =
      text_answer
        (out
          ++ step id "Speech recognized"
            ∷ heard text
            ∷ step id "Dispatch to ABrain"
            ∷ thinking
            ∷ [])
        id s (handle_text_query v.outside text l)

  abbrev pub listened : Live → String × App W → Handled W
  listened l (id, s) =
      let out = planned id speech "Voice request" ∷ started id ∷ [] in
      if stt_is_available l.stt
      then voice_answer (out ++ step id "Listening" ∷ []) id s (handle_voice_once v.outside l)
      else gave_up out id "STT is not available." s l

  unfoldable pub handle_voice_request : App W → Live → Handled W
  unfolding planned started step completed failed next_action_id stt_is_available handle_voice_once
      handle_text_query maybe_auto_speak broadcast_each
  handle_voice_request s l = listened l (next_action_id s)

  -- The text resolver is built anew at the next reading of the clock.
  unfoldable pub handle_service : ServiceMessage → App W → Live → Handled W
  unfolding build_status_payload handle_submit_text handle_speak_text handle_voice_request
      probe_llamafile probe_stt probe_tts probe_local_http probe_cloud_http update_llamafile_config
      update_stt_config update_tts_config update_local_http_config update_cloud_http_config
      set_cloud_http_api_key update_text_provider_chain reset_text_provider_chain
      update_stt_provider_chain reset_stt_provider_chain update_tts_provider_chain
      reset_tts_provider_chain
  handle_service ping s l = (pong ∷ [], s, l)
  handle_service get_status s l = (told v l ∷ [], s, l)
  handle_service (submit_text text) s l = handle_submit_text text s l
  handle_service (speak_text text) s l = handle_speak_text text s l
  handle_service voice_once s l = handle_voice_request s l
  handle_service (settings_set_llamafile_config u) s l =
      replied s
        (update_llamafile_config (v.outside.instant l.calls) u (record l { calls = l.calls + 1 }))
  handle_service settings_probe_llamafile s l =
      (settings_probe_result (probe_llamafile v.stat l) ∷ [], s, l)
  handle_service (settings_set_stt_config u) s l = replied s (update_stt_config u l)
  handle_service (settings_set_tts_config u) s l = replied s (update_tts_config u l)
  handle_service settings_probe_stt s l = (settings_probe_result (probe_stt v.stat l) ∷ [], s, l)
  handle_service settings_probe_tts s l = (settings_probe_result (probe_tts v.stat l) ∷ [], s, l)
  handle_service (settings_set_local_http_config u) s l =
      replied s
        (update_local_http_config (v.outside.instant l.calls) u (record l { calls = l.calls + 1 }))
  handle_service settings_probe_local_http s l = (
    settings_probe_result (probe_local_http v.outside l.calls l) ∷ [],
    s,
    record l { calls = l.calls + 1 },
  )
  handle_service (settings_set_text_provider_chain chain) s l = replied s (
      update_text_provider_chain (v.outside.instant l.calls) chain
        (record l { calls = l.calls + 1 }))
  handle_service settings_reset_text_provider_chain s l =
      replied s
        (reset_text_provider_chain (v.outside.instant l.calls) (record l { calls = l.calls + 1 }))
  handle_service (settings_set_cloud_http_config u) s l =
      replied s
        (update_cloud_http_config (v.outside.instant l.calls) u (record l { calls = l.calls + 1 }))
  handle_service (settings_set_cloud_http_secret key) s l =
      replied s
        (set_cloud_http_api_key (v.outside.instant l.calls) key (record l { calls = l.calls + 1 }))
  handle_service settings_probe_cloud_http s l = (
    settings_probe_result (probe_cloud_http v.outside l.calls l) ∷ [],
    s,
    record l { calls = l.calls + 1 },
  )
  handle_service (settings_set_stt_provider_chain chain) s l =
      replied s (update_stt_provider_chain chain l)
  handle_service settings_reset_stt_provider_chain s l = replied s (reset_stt_provider_chain l)
  handle_service (settings_set_tts_provider_chain chain) s l =
      replied s (update_tts_provider_chain chain l)
  handle_service settings_reset_tts_provider_chain s l = replied s (reset_tts_provider_chain l)
