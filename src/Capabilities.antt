-- ===== src/Capabilities.antt =====
-- core/src/capabilities.rs: the capability identifiers, the mappings onto them, their descriptive
-- defaults, and the sanitizer that admits only the documented vocabulary.
pub mod Tables
pub mod Vocabulary
use smolit_assistant.Base.{
  ℕ, String, len, Bool, true, false, ◌||◌, Option, none, some, List, [], ◌∷◌, ◌==◌, ◌>>=◌, any, all,
  length, or_else, is_empty, trim, is_id_char, all_chars, split_dots, leb, ltb, if◌then◌else◌,
}
use smolit_assistant.Kinds.{
  InteractionKind, open_application, focus_window, type_text, send_shortcut, noop, unknown,
  demo_kind_echo, demo_kind_wait, demo_kind_noop, risk_low, risk_medium, risk_high,
}

abbrev pub max_capability_id_len : ℕ
max_capability_id_len = 64

abbrev pub min_capability_segments : ℕ
min_capability_segments = 2

abbrev pub max_capability_segments : ℕ
max_capability_segments = 4

abbrev pub interaction_open_application : String
interaction_open_application = "interaction.open_application"

abbrev pub interaction_focus_window : String
interaction_focus_window = "interaction.focus_window"

abbrev pub interaction_type_text : String
interaction_type_text = "interaction.type_text"

abbrev pub interaction_send_shortcut : String
interaction_send_shortcut = "interaction.send_shortcut"

abbrev pub assistant_plan_demo_action : String
assistant_plan_demo_action = "assistant.plan_demo_action"

abbrev pub assistant_demo_echo : String
assistant_demo_echo = "assistant.demo.echo"

abbrev pub assistant_demo_wait : String
assistant_demo_wait = "assistant.demo.wait"

abbrev pub admin_status_read : String
admin_status_read = "admin.status.read"

abbrev pub admin_capability_describe : String
admin_capability_describe = "admin.capability.describe"

abbrev pub admin_action_dry_run : String
admin_action_dry_run = "admin.action.dry_run"

abbrev pub admin_action_execute : String
admin_action_execute = "admin.action.execute"

abbrev pub data_context_query : String
data_context_query = "data.context.query"

abbrev pub data_context_summary : String
data_context_summary = "data.context.summary"

abbrev pub data_decide_access : String
data_decide_access = "data.decide_access"

abbrev pub provider_text_generate : String
provider_text_generate = "provider.text.generate"

abbrev pub provider_stt_transcribe : String
provider_stt_transcribe = "provider.stt.transcribe"

abbrev pub provider_tts_speak : String
provider_tts_speak = "provider.tts.speak"

abbrev pub audit_read_recent : String
audit_read_recent = "audit.read_recent"

abbrev pub known_capability_ids : List String
known_capability_ids =
    interaction_open_application ∷ interaction_focus_window ∷ interaction_type_text
    ∷ interaction_send_shortcut ∷ assistant_plan_demo_action ∷ assistant_demo_echo
    ∷ assistant_demo_wait ∷ admin_status_read ∷ admin_capability_describe ∷ admin_action_dry_run
    ∷ admin_action_execute ∷ data_context_query ∷ data_context_summary ∷ data_decide_access
    ∷ provider_text_generate ∷ provider_stt_transcribe ∷ provider_tts_speak ∷ audit_read_recent ∷ []

abbrev pub executable_today : List String
executable_today =
    interaction_open_application ∷ interaction_focus_window ∷ assistant_plan_demo_action
    ∷ assistant_demo_echo ∷ assistant_demo_wait ∷ provider_text_generate ∷ provider_stt_transcribe
    ∷ provider_tts_speak ∷ audit_read_recent ∷ []

unfoldable pub capability_id_for_interaction : InteractionKind → Option String
capability_id_for_interaction open_application = some interaction_open_application
capability_id_for_interaction focus_window = some interaction_focus_window
capability_id_for_interaction type_text = some interaction_type_text
capability_id_for_interaction send_shortcut = some interaction_send_shortcut
capability_id_for_interaction noop = none
capability_id_for_interaction unknown = none

unfoldable pub capability_id_for_demo_kind : String → Option String
capability_id_for_demo_kind kind =
    let k = trim kind in
    if k == demo_kind_echo
    then some assistant_demo_echo
    else if k == demo_kind_wait
    then some assistant_demo_wait
    else if k == demo_kind_noop
    then some assistant_plan_demo_action
    else none

unfoldable pub capability_id_for_plan : String → String
unfolding capability_id_for_demo_kind
capability_id_for_plan kind = or_else (capability_id_for_demo_kind kind) assistant_plan_demo_action

unfoldable pub is_known_capability_id : String → Bool
is_known_capability_id id = any (λ c. c == id) known_capability_ids

unfoldable pub is_executable_today : String → Bool
is_executable_today id = any (λ c. c == id) executable_today

-- The `match` on several constants: the first group of identifiers that holds `id`.
unfoldable pub one_of : List String → String → Bool
one_of ids id = any (λ c. c == id) ids

unfoldable pub risk_for_capability : String → Option String
risk_for_capability id =
    if one_of (interaction_open_application ∷ interaction_focus_window ∷ []) id
    then some risk_medium
    else if one_of (interaction_type_text ∷ interaction_send_shortcut ∷ []) id
    then some risk_high
    else if one_of (assistant_plan_demo_action ∷ []) id
    then some risk_medium
    else if one_of (assistant_demo_echo ∷ assistant_demo_wait ∷ []) id
    then some risk_low
    else if one_of (admin_status_read ∷ admin_capability_describe ∷ []) id
    then some risk_low
    else if one_of (admin_action_dry_run ∷ []) id
    then some risk_medium
    else if one_of (admin_action_execute ∷ []) id
    then some risk_high
    else if one_of (data_context_query ∷ data_context_summary ∷ data_decide_access ∷ []) id
    then some risk_low
    else if one_of (provider_text_generate ∷ provider_stt_transcribe ∷ provider_tts_speak ∷ []) id
    then some risk_low
    else if one_of (audit_read_recent ∷ []) id
    then some risk_low
    else none

unfoldable pub requires_approval_by_default : String → Option Bool
requires_approval_by_default id =
    if one_of
      (interaction_open_application ∷ interaction_focus_window ∷ interaction_type_text
        ∷ interaction_send_shortcut ∷ [])
      id
    then some true
    else if one_of (assistant_plan_demo_action ∷ []) id
    then some true
    else if one_of (assistant_demo_echo ∷ assistant_demo_wait ∷ []) id
    then some false
    else if one_of (admin_status_read ∷ admin_capability_describe ∷ []) id
    then some false
    else if one_of (admin_action_dry_run ∷ admin_action_execute ∷ []) id
    then some true
    else if one_of (data_context_query ∷ data_context_summary ∷ data_decide_access ∷ []) id
    then some false
    else if one_of (provider_text_generate ∷ provider_stt_transcribe ∷ provider_tts_speak ∷ []) id
    then some false
    else if one_of (audit_read_recent ∷ []) id
    then some false
    else none

unfoldable pub audit_required_by_default : String → Option Bool
audit_required_by_default id =
    if one_of (audit_read_recent ∷ []) id
    then some false
    else if one_of (provider_text_generate ∷ provider_stt_transcribe ∷ provider_tts_speak ∷ []) id
    then some false
    else if is_known_capability_id id
    then some true
    else none

unfoldable pub correlation_required_by_default : String → Option Bool
correlation_required_by_default id =
    if one_of
      (admin_action_execute ∷ admin_action_dry_run ∷ interaction_type_text
        ∷ interaction_send_shortcut ∷ [])
      id
    then some true
    else if one_of (audit_read_recent ∷ []) id
    then some false
    else if is_known_capability_id id
    then some false
    else none

-- The loop over the segments of `sanitize_capability_id`.
segments_valid : List String → Bool
segments_valid [] = true
segments_valid (seg ∷ segments) =
    let rest = segments_valid segments in
    if is_empty seg then false else if all_chars is_id_char seg then rest else false

-- `len` counts bytes.
sanitize_trimmed : String → Option String
unfolding segments_valid
sanitize_trimmed trimmed =
    let segments = split_dots trimmed in
    if is_empty trimmed || ltb max_capability_id_len (len trimmed)
    then none
    else if ltb (length segments) min_capability_segments
        || ltb max_capability_segments (length segments)
    then none
    else if segments_valid segments
    then if is_known_capability_id trimmed then some trimmed else none
    else none

unfoldable pub sanitize_capability_id : Option String → Option String
unfolding sanitize_trimmed
sanitize_capability_id raw = do s ← raw; sanitize_trimmed (trim s)
