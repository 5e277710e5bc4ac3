-- ===== src/Ipc/Services/Harmless.antt =====
-- core/src/ipc/server.rs: the requests of text, speech, status and settings have no effect on the desktop
-- and on the pending approvals.
use smolit_assistant.Base.{◌+◌, String, none, some, List, [], ◌∷◌, ◌++◌, if_both}
use smolit_assistant.Messages.{OutgoingMessage, query, speech, heard, thinking}
use smolit_assistant.Providers.Resolver.{Resolution, answered, refused}
use smolit_assistant.App.State.{App, next_action_id}
use smolit_assistant.App.Quiet.{Quiet, still, ◌⨾◌, next_action_id-Quiet, broadcast-Quiet}
use smolit_assistant.App.Live.{Live, Answered}
use smolit_assistant.App.Live.Speech.{Spoken}
use smolit_assistant.Providers.Axes.{stt_is_available}
use smolit_assistant.App.Live.Speech.{
  handle_text_query, handle_voice_once, speak_with_lifecycle_events, maybe_auto_speak,
}
use smolit_assistant.App.Live.Updates.{update_stt_config, update_tts_config}
use smolit_assistant.App.Live.Chains.{
  reset_text_provider_chain, reset_stt_provider_chain, reset_tts_provider_chain,
}
use smolit_assistant.Ipc.Services.{
  Services, broadcast_each, replied, gave_up, auto_spoken, text_answer, speech_answer, voice_answer,
  listened, ServiceMessage, ping, get_status, submit_text, speak_text, voice_once,
  settings_set_llamafile_config, settings_probe_llamafile, settings_set_stt_config,
  settings_set_tts_config, settings_probe_stt, settings_probe_tts, settings_set_local_http_config,
  settings_probe_local_http, settings_set_text_provider_chain, settings_reset_text_provider_chain,
  settings_set_cloud_http_config, settings_set_cloud_http_secret, settings_probe_cloud_http,
  settings_set_stt_provider_chain, settings_reset_stt_provider_chain,
  settings_set_tts_provider_chain, settings_reset_tts_provider_chain, handle_submit_text,
  handle_speak_text, handle_voice_request, handle_service, submitted, spoken_text, step, planned,
  started,
}

module _ {W : Type 0} (v : Services) where
  each-Quiet : (msgs : List OutgoingMessage) (s : App W) → Quiet s (broadcast_each msgs s)
  unfolding broadcast_each
  each-Quiet [] s = still s
  each-Quiet (msg ∷ msgs) s = broadcast-Quiet msg s ⨾ each-Quiet msgs _

  spoken-Quiet :
      (out : List OutgoingMessage) (s : App W) (r : List OutgoingMessage × Live)
      → Quiet s (auto_spoken v out s r).1
  spoken-Quiet out s (events, l) = each-Quiet events s

  text-Quiet :
      (out : List OutgoingMessage) (id : String) (s : App W) (r : Resolution String × Live)
      → Quiet s (text_answer v out id s r).1
  text-Quiet out id s (answered text, l) = spoken-Quiet [] s (maybe_auto_speak v.outside text l)
  text-Quiet out id s (refused e, l) = still s

  speech-Quiet :
      (out : List OutgoingMessage) (id : String) (s : App W) (r : Spoken)
      → Quiet s (speech_answer v out id s r).1
  speech-Quiet out id s (events, some (answered done), l) = still s
  speech-Quiet out id s (events, some (refused e), l) = still s
  speech-Quiet out id s (events, none, l) = still s

  voice-Quiet :
      (out : List OutgoingMessage) (id : String) (s : App W) (r : Resolution String × Live)
      → Quiet s (voice_answer v out id s r).1
  voice-Quiet out id s (refused e, l) = still s
  voice-Quiet out id s (answered text, l) =
      text-Quiet
        (out
          ++ step id "Speech recognized"
            ∷ heard text
            ∷ step id "Dispatch to ABrain"
            ∷ thinking
            ∷ [])
        id s (handle_text_query v.outside text l)

  submitted-Quiet :
      (text : String) (l : Live) (named : String × App W)
      → Quiet named.1 (submitted v text l named).1
  submitted-Quiet text l (id, s) =
      text-Quiet
        (planned id query "Process text request"
          ∷ started id
          ∷ step id "Dispatch to ABrain"
          ∷ thinking
          ∷ [])
        id s (handle_text_query v.outside text l)

  spoken_text-Quiet :
      (text : String) (l : Live) (named : String × App W)
      → Quiet named.1 (spoken_text v text l named).1
  spoken_text-Quiet text l (id, s) =
      speech-Quiet (planned id speech "Speak text" ∷ started id ∷ step id "TTS playback" ∷ []) id s
        (speak_with_lifecycle_events v.outside text "speak_text" (some id) l)

  replied-Quiet : (s : App W) (a : Answered) → Quiet s (replied v s a).1
  replied-Quiet s (none, l) = still s
  replied-Quiet s (some message, l) = still s

  listened-Quiet : (l : Live) (named : String × App W) → Quiet named.1 (listened v l named).1
  listened-Quiet l (id, s) =
      let out = planned id speech "Voice request" ∷ started id ∷ [] in
      if_both (λ h. Quiet s h.1) (stt_is_available l.stt)
        (voice_answer v (out ++ step id "Listening" ∷ []) id s (handle_voice_once v.outside l))
        (gave_up v out id "STT is not available." s l)
        (λ ready.
          voice-Quiet (out ++ step id "Listening" ∷ []) id s (handle_voice_once v.outside l))
        (λ missing. still s)

  -- Whatever a client asks of the providers and the settings, and whatever happens outside, the handler
  -- leaves the desktop and the policy as they are, approves nothing, and keeps the state safe.
  pub handle_service-Quiet :
      (msg : ServiceMessage) (s : App W) (l : Live) → Quiet s (handle_service v msg s l).1
  unfolding handle_service handle_submit_text handle_speak_text handle_voice_request
  handle_service-Quiet ping s l = still s
  handle_service-Quiet get_status s l = still s
  handle_service-Quiet (submit_text text) s l =
      next_action_id-Quiet s ⨾ submitted-Quiet text l (next_action_id s)
  handle_service-Quiet (speak_text text) s l =
      next_action_id-Quiet s ⨾ spoken_text-Quiet text l (next_action_id s)
  handle_service-Quiet voice_once s l = next_action_id-Quiet s ⨾ listened-Quiet l (next_action_id s)
  handle_service-Quiet (settings_set_llamafile_config u) s l = replied-Quiet s _
  handle_service-Quiet settings_probe_llamafile s l = still s
  handle_service-Quiet (settings_set_stt_config u) s l = replied-Quiet s (update_stt_config u l)
  handle_service-Quiet (settings_set_tts_config u) s l = replied-Quiet s (update_tts_config u l)
  handle_service-Quiet settings_probe_stt s l = still s
  handle_service-Quiet settings_probe_tts s l = still s
  handle_service-Quiet (settings_set_local_http_config u) s l = replied-Quiet s _
  handle_service-Quiet settings_probe_local_http s l = still s
  handle_service-Quiet (settings_set_text_provider_chain chain) s l = replied-Quiet s _
  handle_service-Quiet settings_reset_text_provider_chain s l =
      replied-Quiet s
        (reset_text_provider_chain (v.outside.instant l.calls) (record l { calls = l.calls + 1 }))
  handle_service-Quiet (settings_set_cloud_http_config u) s l = replied-Quiet s _
  handle_service-Quiet (settings_set_cloud_http_secret key) s l = replied-Quiet s _
  handle_service-Quiet settings_probe_cloud_http s l = still s
  handle_service-Quiet (settings_set_stt_provider_chain chain) s l = replied-Quiet s _
  handle_service-Quiet settings_reset_stt_provider_chain s l =
      replied-Quiet s (reset_stt_provider_chain l)
  handle_service-Quiet (settings_set_tts_provider_chain chain) s l = replied-Quiet s _
  handle_service-Quiet settings_reset_tts_provider_chain s l =
      replied-Quiet s (reset_tts_provider_chain l)
