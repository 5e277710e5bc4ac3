-- ===== src/App/Live/Consistent.antt =====
-- core/src/app.rs: a text query and the speech leave each resolver with the providers that its chain lists.
use smolit_assistant.Base.{ℕ, ◌≡◌, refl, String, Option, none, List, [], if_both}
use smolit_assistant.Messages.{OutgoingMessage}
use smolit_assistant.Providers.Outside.{Outside}
use smolit_assistant.Providers.Resolver.{resolve}
use smolit_assistant.Providers.Resolver.Kinds.{resolve_kinds}
use smolit_assistant.Providers.Axes.{
  TextProviderImpl, abrain, llamafile_local, local_http, cloud_http, text_kind_name, text_attempt,
  text_axis, stt_axis, tts_axis, text_kinds, stt_kinds, tts_kinds, tts_is_available,
}
use smolit_assistant.Providers.Axes.Settled.{AllSettled, resolve-AllSettled}
use smolit_assistant.App.Live.{Live}
use smolit_assistant.App.Live.Agrees.{Agrees, text-Agrees, stt-Agrees, tts-Agrees}
use smolit_assistant.App.Live.Speech.{
  handle_text_query, handle_voice_once, handle_speak, Spoken, speak_with_lifecycle_events,
  maybe_auto_speak,
}

-- Of each axis, the resolver holds the kinds that are built from the live chain; and a llamafile provider
-- is settled.
unfoldable pub IsConsistent : Live → Type 0
unfolding text_kind_name
IsConsistent l = Agrees text_kinds stt_kinds tts_kinds l × AllSettled l.text_provider.providers

text_keeps :
    (o : Outside) (input : String) (n : ℕ) (p : TextProviderImpl)
    → text_kind_name ((text_axis o input).attempt n p).1 ≡ text_kind_name p
unfolding text_attempt text_kind_name
text_keeps o input n (abrain p) = refl
text_keeps o input n (llamafile_local p) = refl
text_keeps o input n (local_http c) = refl
text_keeps o input n (cloud_http c) = refl

module _ (o : Outside) where
  pub query-IsConsistent :
      (input : String) (l : Live) → IsConsistent l → IsConsistent (handle_text_query o input l).1
  unfolding IsConsistent handle_text_query
  query-IsConsistent input l (c, h) =
      let (r, resolver, n) = resolve (text_axis o input) l.calls l.text_provider in
      (
        text-Agrees text_kinds stt_kinds tts_kinds resolver n l
            (resolve_kinds (text_axis o input) (text_keeps o input) l.calls l.text_provider) c,
        resolve-AllSettled o input l.calls l.text_provider h,
      )

  pub voice-IsConsistent : (l : Live) → IsConsistent l → IsConsistent (handle_voice_once o l).1
  unfolding IsConsistent handle_voice_once
  voice-IsConsistent l (c, h) =
      let (r, resolver, n) = resolve (stt_axis o) l.calls l.stt in
      (
        stt-Agrees text_kinds stt_kinds tts_kinds resolver n l
            (resolve_kinds (stt_axis o) (λ n p. refl) l.calls l.stt) c,
        h,
      )

  speak-IsConsistent :
      (text : String) (l : Live) → IsConsistent l → IsConsistent (handle_speak o text l).1
  unfolding IsConsistent handle_speak
  speak-IsConsistent text l (c, h) =
      let (r, resolver, n) = resolve (tts_axis o text) l.calls l.tts in
      (
        tts-Agrees text_kinds stt_kinds tts_kinds resolver n l
            (resolve_kinds (tts_axis o text) (λ n p. refl) l.calls l.tts) c,
        h,
      )

  pub events-IsConsistent :
      (text source : String) (action_id : Option String) (l : Live)
      → IsConsistent l
      → IsConsistent (speak_with_lifecycle_events o text source action_id l).2
  unfolding speak_with_lifecycle_events
  events-IsConsistent text source action_id l c =
      if_both (λ (r : Spoken). IsConsistent r.2) (tts_is_available l.tts) _ ([], none, l)
        (λ ready. speak-IsConsistent text l c) (λ missing. c)

  pub auto-IsConsistent :
      (text : String) (l : Live) → IsConsistent l → IsConsistent (maybe_auto_speak o text l).1
  unfolding maybe_auto_speak
  auto-IsConsistent text l c =
      if_both (λ (r : List OutgoingMessage × Live). IsConsistent r.1) l.live_audio.auto_speak _
        ([], l) (λ on. events-IsConsistent text "auto_speak" none l c) (λ off. c)
