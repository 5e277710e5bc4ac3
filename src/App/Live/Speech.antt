-- ===== src/App/Live/Speech.antt =====
-- core/src/app.rs: the text queries and the speech (handle_text_query, handle_voice_once, handle_speak,
-- speak_with_lifecycle_events, maybe_auto_speak).
use smolit_assistant.Base.{
  String, Bool, true, false, Option, none, some, List, [], ◌∷◌, if◌then◌else◌, is_empty,
}
use smolit_assistant.Base.Text.Cuts.{◌<>◌}
use smolit_assistant.Messages.{OutgoingMessage, speaking_started, speaking_ended}
use smolit_assistant.Providers.{ProviderError, empty_chain, all_failed}
use smolit_assistant.Providers.Outside.{Outside}
use smolit_assistant.Providers.Resolver.{Resolution, answered, refused, resolve}
use smolit_assistant.Providers.Axes.{
  text_axis, stt_axis, tts_axis, text_attempt, tts_kinds, tts_is_available,
}
use smolit_assistant.App.Live.{Live}

-- The `Display` of the error, with the name of the axis and of the variable that lists its chain.
abbrev display_provider_error : String → String → ProviderError → String
display_provider_error axis variable empty_chain =
    "no "
    <> (axis
        <> (" provider configured (chain is empty); check " <> (variable <> " or core config")))
display_provider_error axis variable (all_failed last) =
    "all configured " <> (axis <> (" providers failed; last error: " <> last))

abbrev pub text_error : ProviderError → String
text_error e = display_provider_error "text" "SMOLIT_TEXT_PROVIDER_CHAIN" e

abbrev pub stt_error : ProviderError → String
stt_error e = display_provider_error "STT" "SMOLIT_STT_PROVIDER_CHAIN" e

abbrev pub tts_error : ProviderError → String
tts_error e = display_provider_error "TTS" "SMOLIT_TTS_PROVIDER_CHAIN" e

abbrev first_or_empty : List String → String
first_or_empty [] = ""
first_or_empty (kind ∷ kinds) = kind

-- The class of the error of a run, if it failed.
abbrev pub error_class_of : {T : Type 0} → Resolution T → Option String
error_class_of (answered t) = none
error_class_of (refused empty_chain) = some "empty_chain"
error_class_of (refused (all_failed class)) = some class

abbrev succeeded : {T : Type 0} → Resolution T → Bool
succeeded (answered t) = true
succeeded (refused e) = false

abbrev pub started_event : String → Option String → String → OutgoingMessage
started_event source action_id primary =
    speaking_started (record { source = source; provider = primary; action_id = action_id })

abbrev pub ended_event :
    String → Option String → String → Resolution (Unit {0}) × Live → OutgoingMessage
ended_event source action_id primary (r, l) = speaking_ended (record {
  source = source;
  provider = if is_empty l.tts.status.active then primary else l.tts.status.active;
  ok = succeeded r;
  error_class = error_class_of r;
  action_id = action_id;
})

-- `none` as the answer means that nothing was spoken.
abbrev pub Spoken : Type 0
Spoken = List OutgoingMessage × Option (Resolution (Unit {0})) × Live

abbrev pub spoken : String → Option String → String → Resolution (Unit {0}) × Live → Spoken
spoken source action_id primary (r, l) = (
  started_event source action_id primary ∷ ended_event source action_id primary (r, l) ∷ [],
  some r,
  l,
)

abbrev quietly : Spoken → List OutgoingMessage × Live
quietly (events, r, l) = (events, l)

module _ (o : Outside) where
  unfoldable pub handle_text_query : String → Live → Resolution String × Live
  unfolding text_attempt resolve
  handle_text_query input l =
      let (r, resolver, n) = resolve (text_axis o input) l.calls l.text_provider in
      (r, record l { text_provider = resolver; calls = n })

  unfoldable pub handle_voice_once : Live → Resolution String × Live
  unfolding resolve
  handle_voice_once l =
      let (r, resolver, n) = resolve (stt_axis o) l.calls l.stt in
      (r, record l { stt = resolver; calls = n })

  unfoldable pub handle_speak : String → Live → Resolution (Unit {0}) × Live
  unfolding resolve
  handle_speak text l =
      let (r, resolver, n) = resolve (tts_axis o text) l.calls l.tts in
      (r, record l { tts = resolver; calls = n })

  unfoldable pub speak_with_lifecycle_events : String → String → Option String → Live → Spoken
  unfolding handle_speak tts_is_available
  speak_with_lifecycle_events text source action_id l =
      if tts_is_available l.tts
      then spoken source action_id (first_or_empty (tts_kinds l.tts)) (handle_speak text l)
      else ([], none, l)

  -- The events are broadcast, and an error is only logged.
  unfoldable pub maybe_auto_speak : String → Live → List OutgoingMessage × Live
  unfolding speak_with_lifecycle_events
  maybe_auto_speak text l =
      if l.live_audio.auto_speak
      then quietly (speak_with_lifecycle_events text "auto_speak" none l)
      else ([], l)
