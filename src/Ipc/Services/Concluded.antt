-- ===== src/Ipc/Services/Concluded.antt =====
-- core/src/ipc/server.rs: how the answers to handle_submit_text, handle_speak_text and handle_voice_once end.
use smolit_assistant.Base.{
  ◌≡◌, refl, sym, ap, ◌∙◌, String, Bool, true, false, Option, none, some, ◌⊎◌, inl, inr, List, [],
  ◌∷◌, ◌++◌, if_both, if◌then◌else◌, append_assoc,
}
use smolit_assistant.Messages.{
  query, speech, OutgoingMessage, error, action_completed, action_failed, thinking, heard, response,
}
use smolit_assistant.Providers.Resolver.{Resolution, answered, refused}
use smolit_assistant.Providers.Axes.{stt_is_available, tts_is_available}
use smolit_assistant.App.State.{App, next_action_id}
use smolit_assistant.App.Live.{Live}
use smolit_assistant.App.Live.Speech.{
  handle_text_query, handle_voice_once, speak_with_lifecycle_events, text_error, stt_error,
  tts_error, Spoken,
}
use smolit_assistant.Ipc.Services.{
  Services, Handled, gave_up, text_answer, speech_answer, voice_answer, listened, submit_text,
  speak_text, voice_once, handle_submit_text, handle_speak_text, handle_voice_request,
  handle_service, planned, started, step, completed, failed,
}

-- The message says how a request ended, or that it met an error.
unfoldable pub is_final : OutgoingMessage → Bool
is_final (error message) = true
is_final (action_completed payload) = true
is_final (action_failed payload) = true
is_final _ = false

abbrev pub IsOpen : List OutgoingMessage → Type 0
IsOpen [] = Unit
IsOpen (m ∷ ms) = (is_final m ≡ false) × IsOpen ms

-- Behind the messages `out`, the answer goes on with open messages and ends, if all went well, with the
-- completion of the action, and else with an error and the failure of the action under the same text.
pub Concludes : Bool → String → List OutgoingMessage → List OutgoingMessage → Type 0
Concludes well id out answer =
    (more : List OutgoingMessage) × IsOpen more
    × (((well ≡ true) × (answer ≡ out ++ (more ++ completed id ∷ [])))
        ⊎ ((message : String) × (well ≡ false)
            × (answer ≡ out ++ (more ++ error message ∷ failed id message ∷ []))))

abbrev pub is_answered : {T : Type 0} → Resolution T → Bool
is_answered (answered t) = true
is_answered (refused e) = false

-- The text is spoken: an output is available, and the run of the providers succeeds.
abbrev pub is_spoken : Option (Resolution (Unit {0})) → Bool
is_spoken none = false
is_spoken (some r) = is_answered r

-- Something is heard, and the query for it is answered.
abbrev pub is_heard : Services → Resolution String × Live → Bool
is_heard v (refused e, l) = false
is_heard v (answered text, l) = is_answered (handle_text_query v.outside text l).0

-- A recognition is available, something is heard, and the query for it is answered.
abbrev pub is_listened : Services → Live → Bool
is_listened v l =
    if stt_is_available l.stt then is_heard v (handle_voice_once v.outside l) else false

-- A relation of two values that the same test decides.
both_ways :
    {A B : Type 0} (R : B → A → Type 0) (b : Bool) (x y : A) (g k : B)
    → R g x
    → R k y
    → R (if b then g else k) (if b then x else y)
both_ways R true x y g k h j = h
both_ways R false x y g k h j = j

append-IsOpen : (ms ns : List OutgoingMessage) → IsOpen ms → IsOpen ns → IsOpen (ms ++ ns)
append-IsOpen [] ns h k = k
append-IsOpen (m ∷ ms) ns (h, hs) k = (h, append-IsOpen ms ns hs k)

apart :
    (out ms more end : List OutgoingMessage)
    → (out ++ ms) ++ (more ++ end) ≡ out ++ ((ms ++ more) ++ end)
apart out ms more end =
    append_assoc out ms (more ++ end) ∙ ap (λ l. out ++ l) (sym (append_assoc ms more end))

-- Open messages in front of the end belong to the answer.
widened :
    (well : Bool) (id : String) (out ms answer : List OutgoingMessage)
    → IsOpen ms
    → Concludes well id (out ++ ms) answer
    → Concludes well id out answer
unfolding Concludes
widened well id out ms answer h (more, k, inl (good, e)) =
    (ms ++ more, append-IsOpen ms more h k, inl (good, e ∙ apart out ms more (completed id ∷ [])))
widened well id out ms answer h (more, k, inr (message, bad, e)) = (
  ms ++ more,
  append-IsOpen ms more h k,
  inr (message, bad, e ∙ apart out ms more (error message ∷ failed id message ∷ [])),
)

spoken-IsOpen :
    (v : Services) (text source : String) (action_id : Option String) (l : Live)
    → IsOpen (speak_with_lifecycle_events v.outside text source action_id l).0
unfolding speak_with_lifecycle_events is_final
spoken-IsOpen v text source action_id l =
    if_both (λ (r : Spoken). IsOpen r.0) (tts_is_available l.tts) _ ([], none, l)
      (λ ready. (refl, (refl, tt))) (λ missing. tt)

module _ {W : Type 0} (v : Services) where
  text-Concludes :
      (out : List OutgoingMessage) (id : String) (s : App W) (r : Resolution String × Live)
      → Concludes (is_answered r.0) id out (text_answer v out id s r).0
  unfolding Concludes is_final
  text-Concludes out id s (answered text, l) = (response text ∷ [], (refl, tt), inl (refl, refl))
  text-Concludes out id s (refused e, l) = ([], tt, inr (text_error e, refl, refl))

  speech-Concludes :
      (out : List OutgoingMessage) (id : String) (s : App W) (r : Spoken)
      → IsOpen r.0
      → Concludes (is_spoken r.1) id out (speech_answer v out id s r).0
  unfolding Concludes
  speech-Concludes out id s (events, some (answered done), l) h = (events, h, inl (refl, refl))
  speech-Concludes out id s (events, some (refused e), l) h =
      (events, h, inr (tts_error e, refl, append_assoc out events _))
  speech-Concludes out id s (events, none, l) h =
      (events, h, inr ("TTS is not available.", refl, append_assoc out events _))

  voice-Concludes :
      (out : List OutgoingMessage) (id : String) (s : App W) (r : Resolution String × Live)
      → Concludes (is_heard v r) id out (voice_answer v out id s r).0
  unfolding Concludes is_final step
  voice-Concludes out id s (refused e, l) = ([], tt, inr (stt_error e, refl, refl))
  voice-Concludes out id s (answered text, l) =
      let steps =
        step id "Speech recognized" ∷ heard text ∷ step id "Dispatch to ABrain" ∷ thinking ∷ [] in
      widened (is_answered (handle_text_query v.outside text l).0) id out steps
        (text_answer v (out ++ steps) id s (handle_text_query v.outside text l)).0
        (refl, (refl, (refl, (refl, tt))))
        (text-Concludes (out ++ steps) id s (handle_text_query v.outside text l))

  listened-Concludes :
      (l : Live) (id : String) (s : App W)
      → Concludes
          (is_listened v l)
          id
          (planned id speech "Voice request" ∷ started id ∷ [])
          (listened v l (id, s)).0
  unfolding Concludes is_final step
  listened-Concludes l id s =
      let out = planned id speech "Voice request" ∷ started id ∷ [] in
      both_ways (λ (well : Bool) (h : Handled W). Concludes well id out h.0)
        (stt_is_available l.stt)
        (voice_answer v (out ++ step id "Listening" ∷ []) id s (handle_voice_once v.outside l))
        (gave_up v out id "STT is not available." s l) (is_heard v (handle_voice_once v.outside l))
        false
        (widened (is_heard v (handle_voice_once v.outside l)) id out (step id "Listening" ∷ []) _
          (refl, tt)
          (voice-Concludes (out ++ step id "Listening" ∷ []) id s (handle_voice_once v.outside l)))
        ([], tt, inr ("STT is not available.", refl, refl))

  -- Whatever happens outside, the answer to a request of text, of speech or of the voice announces the
  -- action under the next identifier and its start, and is concluded once: by the completion of the action
  -- if the providers answered (for the voice, that of the recognition and that of the text), and else by an
  -- error and the failure of the action under the text of the error. No message before the end is an error,
  -- a completion or a failure.
  pub handle_service-Concludes :
      (text : String) (s : App W) (l : Live)
      → let id = (next_action_id s).0 in
        Concludes
          (is_answered (handle_text_query v.outside text l).0)
          id
          (planned id query "Process text request" ∷ started id ∷ [])
          (handle_service v (submit_text text) s l).0
        × Concludes
            (is_spoken (speak_with_lifecycle_events v.outside text "speak_text" (some id) l).1)
            id
            (planned id speech "Speak text" ∷ started id ∷ [])
            (handle_service v (speak_text text) s l).0
        × Concludes
            (is_listened v l)
            id
            (planned id speech "Voice request" ∷ started id ∷ [])
            (handle_service v voice_once s l).0
  unfolding handle_service handle_submit_text handle_speak_text handle_voice_request is_final step
  handle_service-Concludes text s l =
      let (id, s1) = next_action_id s in
      let answer = handle_text_query v.outside text l in
      let speech_run = speak_with_lifecycle_events v.outside text "speak_text" (some id) l in
      (
        widened (is_answered answer.0) id
            (planned id query "Process text request" ∷ started id ∷ [])
            (step id "Dispatch to ABrain" ∷ thinking ∷ []) _ (refl, (refl, tt))
            (text-Concludes _ id s1 answer),
        widened (is_spoken speech_run.1) id (planned id speech "Speak text" ∷ started id ∷ [])
            (step id "TTS playback" ∷ []) _ (refl, tt)
            (speech-Concludes _ id s1 speech_run (spoken-IsOpen v text "speak_text" (some id) l)),
        listened-Concludes l id s1,
      )
