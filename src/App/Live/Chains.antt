-- ===== src/App/Live/Chains.antt =====
-- core/src/app.rs: the updates and resets of the provider chains.
use smolit_assistant.App.Live.{Live, rebuild_text, rebuild_stt, rebuild_tts, persisted, Answered}
use smolit_assistant.Base.{ℕ, String, none, some, List, [], ◌∷◌}
use smolit_assistant.Providers.{
  known_text_kinds, known_stt_kinds, known_tts_kinds, provider_name_abrain,
  provider_name_stt_command, provider_name_tts_command,
}
use smolit_assistant.Providers.Chain.{
  Validation, valid, invalid, validate_text_chain, validate_stt_chain, validate_tts_chain,
  display_chain_error,
}
use smolit_assistant.Settings.Saves.{
  save_text_chain_override, save_stt_chain_override, save_tts_chain_override,
  clear_text_chain_override, clear_stt_chain_override, clear_tts_chain_override,
}

abbrev pub text_chain_checked : ℕ → Validation → Live → Answered
text_chain_checked now (invalid e) l = (some (display_chain_error "text" known_text_kinds e), l)
text_chain_checked now (valid chain) l = (
  none,
  rebuild_text now
      (persisted (save_text_chain_override chain l.disk) (record l { live_text_chain = chain })),
)

unfoldable pub update_text_provider_chain : ℕ → List String → Live → Answered
unfolding validate_text_chain display_chain_error save_text_chain_override rebuild_text
update_text_provider_chain now chain l = text_chain_checked now (validate_text_chain chain) l

unfoldable pub reset_text_provider_chain : ℕ → Live → Answered
unfolding clear_text_chain_override update_text_provider_chain
reset_text_provider_chain now l =
    update_text_provider_chain now (provider_name_abrain ∷ [])
      (persisted (clear_text_chain_override l.disk) l)

abbrev pub stt_chain_checked : Validation → Live → Answered
stt_chain_checked (invalid e) l = (some (display_chain_error "stt" known_stt_kinds e), l)
stt_chain_checked (valid chain) l = (
  none,
  rebuild_stt (
      persisted (save_stt_chain_override chain l.disk)
        (record l { live_audio = record (l.live_audio) { stt_provider_chain = chain } })),
)

unfoldable pub update_stt_provider_chain : List String → Live → Answered
unfolding validate_stt_chain display_chain_error save_stt_chain_override rebuild_stt
update_stt_provider_chain chain l = stt_chain_checked (validate_stt_chain chain) l

unfoldable pub reset_stt_provider_chain : Live → Answered
unfolding clear_stt_chain_override update_stt_provider_chain
reset_stt_provider_chain l =
    update_stt_provider_chain (provider_name_stt_command ∷ [])
      (persisted (clear_stt_chain_override l.disk) l)

abbrev pub tts_chain_checked : Validation → Live → Answered
tts_chain_checked (invalid e) l = (some (display_chain_error "tts" known_tts_kinds e), l)
tts_chain_checked (valid chain) l = (
  none,
  rebuild_tts (
      persisted (save_tts_chain_override chain l.disk)
        (record l { live_audio = record (l.live_audio) { tts_provider_chain = chain } })),
)

unfoldable pub update_tts_provider_chain : List String → Live → Answered
unfolding validate_tts_chain display_chain_error save_tts_chain_override rebuild_tts
update_tts_provider_chain chain l = tts_chain_checked (validate_tts_chain chain) l

unfoldable pub reset_tts_provider_chain : Live → Answered
unfolding clear_tts_chain_override update_tts_provider_chain
reset_tts_provider_chain l =
    update_tts_provider_chain (provider_name_tts_command ∷ [])
      (persisted (clear_tts_chain_override l.disk) l)
