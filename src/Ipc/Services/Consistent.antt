-- ===== src/Ipc/Services/Consistent.antt =====
-- core/src/ipc/server.rs: whatever clients ask, each resolver holds the providers that its live chain lists,
-- and no others.
use smolit_assistant.Base.{ℕ, ◌+◌, String, none, some, List, [], ◌∷◌, ◌++◌, if_both}
use smolit_assistant.Messages.{OutgoingMessage, query, speech, heard, thinking}
use smolit_assistant.Providers.Resolver.{Resolution, answered, refused}
use smolit_assistant.App.State.{App, next_action_id}
use smolit_assistant.App.Live.{Live, Answered, text_parts}
use smolit_assistant.App.Live.Speech.{Spoken}
use smolit_assistant.Providers.Axes.{stt_is_available}
use smolit_assistant.App.Live.Speech.{
  handle_text_query, handle_voice_once, speak_with_lifecycle_events,
}
use smolit_assistant.Ipc.Services.{
  Services, Handled, replied, gave_up, text_answer, speech_answer, voice_answer, listened,
  ServiceMessage, ping, get_status, submit_text, speak_text, voice_once,
  settings_set_llamafile_config, settings_probe_llamafile, settings_set_stt_config,
  settings_set_tts_config, settings_probe_stt, settings_probe_tts, settings_set_local_http_config,
  settings_probe_local_http, settings_set_text_provider_chain, settings_reset_text_provider_chain,
  settings_set_cloud_http_config, settings_set_cloud_http_secret, settings_probe_cloud_http,
  settings_set_stt_provider_chain, settings_reset_stt_provider_chain,
  settings_set_tts_provider_chain, settings_reset_tts_provider_chain, handle_submit_text,
  handle_speak_text, handle_voice_request, handle_service, submitted, spoken_text, step, planned,
  started,
}
use smolit_assistant.Config.{Config}
use smolit_assistant.Settings.{Disk}
use smolit_assistant.Providers.Axes.{text_kinds, stt_kinds, tts_kinds}
use smolit_assistant.Providers.Axes.Settled.{text_from_chain-AllSettled}
use smolit_assistant.App.Live.Settled.{changed-TextSettled}
use smolit_assistant.App.Live.Start.{start}
use smolit_assistant.App.Live.Consistent.{
  IsConsistent, query-IsConsistent, voice-IsConsistent, events-IsConsistent, auto-IsConsistent,
}
use smolit_assistant.App.Live.Agrees.{
  SettingsStep, llamafile, stt, tts, local_http, cloud_http, api_key, text_chain, stt_chain,
  tts_chain, reset_text_chain, reset_stt_chain, reset_tts_chain, changed, changed-Agrees,
  start-Agrees, calls-Agrees,
}

ticked-IsConsistent : (n : ℕ) (l : Live) → IsConsistent l → IsConsistent (record l { calls = n })
unfolding IsConsistent
ticked-IsConsistent n l (c, h) = (calls-Agrees text_kinds stt_kinds tts_kinds n l c, h)

changed-IsConsistent : (c : SettingsStep) (l : Live) → IsConsistent l → IsConsistent (changed c l).1
unfolding IsConsistent
changed-IsConsistent c l (a, h) =
    (changed-Agrees text_kinds stt_kinds tts_kinds c l a, changed-TextSettled c l h)

abbrev behind : {W : Type 0} → Handled W → App W × Live
behind (out, s, l) = (s, l)

pub start-IsConsistent :
    (config : Config) (disk : Disk) (now : ℕ) → IsConsistent (start config disk now)
unfolding IsConsistent start text_parts
start-IsConsistent config disk now =
    let l = start config disk now in
    (
      start-Agrees text_kinds stt_kinds tts_kinds config disk now,
      text_from_chain-AllSettled l.live_text_chain (text_parts now l),
    )

module _ {W : Type 0} (v : Services) where
  text-IsConsistent :
      (out : List OutgoingMessage) (id : String) (s : App W) (r : Resolution String × Live)
      → IsConsistent r.1
      → IsConsistent (text_answer v out id s r).2
  text-IsConsistent out id s (answered text, l) c = auto-IsConsistent v.outside text l c
  text-IsConsistent out id s (refused e, l) c = c

  speech-IsConsistent :
      (out : List OutgoingMessage) (id : String) (s : App W) (r : Spoken)
      → IsConsistent r.2
      → IsConsistent (speech_answer v out id s r).2
  speech-IsConsistent out id s (events, some (answered done), l) c = c
  speech-IsConsistent out id s (events, some (refused e), l) c = c
  speech-IsConsistent out id s (events, none, l) c = c

  heard-IsConsistent :
      (out : List OutgoingMessage) (id : String) (s : App W) (r : Resolution String × Live)
      → IsConsistent r.1
      → IsConsistent (voice_answer v out id s r).2
  heard-IsConsistent out id s (refused e, l) c = c
  heard-IsConsistent out id s (answered text, l) c =
      text-IsConsistent
        (out
          ++ step id "Speech recognized"
            ∷ heard text
            ∷ step id "Dispatch to ABrain"
            ∷ thinking
            ∷ [])
        id s (handle_text_query v.outside text l) (query-IsConsistent v.outside text l c)

  listened-IsConsistent :
      (l : Live) (named : String × App W) → IsConsistent l → IsConsistent (listened v l named).2
  listened-IsConsistent l (id, s) c =
      let out = planned id speech "Voice request" ∷ started id ∷ [] in
      if_both (λ (h : Handled W). IsConsistent h.2) (stt_is_available l.stt)
        (voice_answer v (out ++ step id "Listening" ∷ []) id s (handle_voice_once v.outside l))
        (gave_up v out id "STT is not available." s l)
        (λ ready.
          heard-IsConsistent (out ++ step id "Listening" ∷ []) id s (handle_voice_once v.outside l)
            (voice-IsConsistent v.outside l c))
        (λ missing. c)

  submitted-IsConsistent :
      (text : String) (l : Live) (named : String × App W)
      → IsConsistent l
      → IsConsistent (submitted v text l named).2
  submitted-IsConsistent text l (id, s) c =
      text-IsConsistent
        (planned id query "Process text request"
          ∷ started id
          ∷ step id "Dispatch to ABrain"
          ∷ thinking
          ∷ [])
        id s (handle_text_query v.outside text l) (query-IsConsistent v.outside text l c)

  spoken-IsConsistent :
      (text : String) (l : Live) (named : String × App W)
      → IsConsistent l
      → IsConsistent (spoken_text v text l named).2
  spoken-IsConsistent text l (id, s) c =
      speech-IsConsistent
        (planned id speech "Speak text" ∷ started id ∷ step id "TTS playback" ∷ []) id s
        (speak_with_lifecycle_events v.outside text "speak_text" (some id) l)
        (events-IsConsistent v.outside text "speak_text" (some id) l c)

  replied-IsConsistent :
      (s : App W) (a : Answered) → IsConsistent a.1 → IsConsistent (replied v s a).2
  replied-IsConsistent s (none, l) c = c
  replied-IsConsistent s (some message, l) c = c

  -- The reply to a change of a setting.
  settled-IsConsistent :
      (c : SettingsStep) (s : App W) (l : Live)
      → IsConsistent l
      → IsConsistent (replied v s (changed c l)).2
  settled-IsConsistent c s l h = replied-IsConsistent s (changed c l) (changed-IsConsistent c l h)

  timed-IsConsistent :
      (c : SettingsStep) (s : App W) (l : Live)
      → IsConsistent l
      → IsConsistent (replied v s (changed c (record l { calls = l.calls + 1 }))).2
  timed-IsConsistent c s l h =
      settled-IsConsistent c s (record l { calls = l.calls + 1 })
        (ticked-IsConsistent (l.calls + 1) l h)

  pub handle_service-IsConsistent :
      (msg : ServiceMessage) (s : App W) (l : Live)
      → IsConsistent l
      → IsConsistent (handle_service v msg s l).2
  unfolding handle_service handle_submit_text handle_speak_text handle_voice_request changed
  handle_service-IsConsistent ping s l c = c
  handle_service-IsConsistent get_status s l c = c
  handle_service-IsConsistent (submit_text text) s l c =
      submitted-IsConsistent text l (next_action_id s) c
  handle_service-IsConsistent (speak_text text) s l c =
      spoken-IsConsistent text l (next_action_id s) c
  handle_service-IsConsistent voice_once s l c = listened-IsConsistent l (next_action_id s) c
  handle_service-IsConsistent (settings_set_llamafile_config u) s l c =
      timed-IsConsistent (llamafile (v.outside.instant l.calls) u) s l c
  handle_service-IsConsistent settings_probe_llamafile s l c = c
  handle_service-IsConsistent (settings_set_stt_config u) s l c = settled-IsConsistent (stt u) s l c
  handle_service-IsConsistent (settings_set_tts_config u) s l c = settled-IsConsistent (tts u) s l c
  handle_service-IsConsistent settings_probe_stt s l c = c
  handle_service-IsConsistent settings_probe_tts s l c = c
  handle_service-IsConsistent (settings_set_local_http_config u) s l c =
      timed-IsConsistent (local_http (v.outside.instant l.calls) u) s l c
  handle_service-IsConsistent settings_probe_local_http s l c =
      ticked-IsConsistent (l.calls + 1) l c
  handle_service-IsConsistent (settings_set_text_provider_chain chain) s l c =
      timed-IsConsistent (text_chain (v.outside.instant l.calls) chain) s l c
  handle_service-IsConsistent settings_reset_text_provider_chain s l c =
      timed-IsConsistent (reset_text_chain (v.outside.instant l.calls)) s l c
  handle_service-IsConsistent (settings_set_cloud_http_config u) s l c =
      timed-IsConsistent (cloud_http (v.outside.instant l.calls) u) s l c
  handle_service-IsConsistent (settings_set_cloud_http_secret key) s l c =
      timed-IsConsistent (api_key (v.outside.instant l.calls) key) s l c
  handle_service-IsConsistent settings_probe_cloud_http s l c =
      ticked-IsConsistent (l.calls + 1) l c
  handle_service-IsConsistent (settings_set_stt_provider_chain chain) s l c =
      settled-IsConsistent (stt_chain chain) s l c
  handle_service-IsConsistent settings_reset_stt_provider_chain s l c =
      settled-IsConsistent reset_stt_chain s l c
  handle_service-IsConsistent (settings_set_tts_provider_chain chain) s l c =
      settled-IsConsistent (tts_chain chain) s l c
  handle_service-IsConsistent settings_reset_tts_provider_chain s l c =
      settled-IsConsistent reset_tts_chain s l c
