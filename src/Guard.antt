-- ===== src/Guard.antt =====
-- core/src/capability_guard.rs: the fail-closed filter in front of the approval and policy paths.
pub mod FailClosed
use smolit_assistant.Base.{
  String, Bool, true, false, not, ◌||◌, Option, none, some, List, [], ◌∷◌, ◌==◌, is_empty, trim,
  if◌then◌else◌,
}
use text.Mathlib.Text.{starts_with}
use smolit_assistant.Kinds.{InteractionKind}
use smolit_assistant.Capabilities.{
  is_known_capability_id, is_executable_today, capability_id_for_interaction,
  capability_id_for_plan, interaction_type_text, interaction_send_shortcut,
}

abbrev pub reason_unknown_capability_id : String
reason_unknown_capability_id = "unknown_capability_id"

abbrev pub reason_capability_not_executable_today : String
reason_capability_not_executable_today = "capability_not_executable_today"

abbrev pub reason_future_capability_not_implemented : String
reason_future_capability_not_implemented = "future_capability_not_implemented"

abbrev pub reason_interaction_type_text_not_supported : String
reason_interaction_type_text_not_supported = "interaction_type_text_not_supported"

abbrev pub reason_interaction_send_shortcut_not_supported : String
reason_interaction_send_shortcut_not_supported = "interaction_send_shortcut_not_supported"

abbrev pub recovery_hint_fallback_unavailable : String
recovery_hint_fallback_unavailable = "fallback_unavailable"

abbrev pub known_guard_reasons : List String
known_guard_reasons =
    reason_unknown_capability_id ∷ reason_capability_not_executable_today
    ∷ reason_future_capability_not_implemented ∷ reason_interaction_type_text_not_supported
    ∷ reason_interaction_send_shortcut_not_supported ∷ []

pub data CapabilityGuardDecision : Type 0 where
  allow : CapabilityGuardDecision
  deny : String → Option String → CapabilityGuardDecision

unfoldable pub is_allow : CapabilityGuardDecision → Bool
is_allow allow = true
is_allow (deny reason hint) = false

unfoldable pub is_deny : CapabilityGuardDecision → Bool
is_deny allow = false
is_deny (deny reason hint) = true

unfoldable pub reason_str : CapabilityGuardDecision → String
reason_str allow = "allow"
reason_str (deny reason hint) = reason

pub record CapabilityGuardInput : Type 0 where
  pub capability_id : Option String
  pub action_kind : Option InteractionKind
  pub source : Option String
  pub correlation_id : Option String

unfoldable pub for_capability : String → CapabilityGuardInput
for_capability id = record {
  capability_id = some id;
  action_kind = none;
  source = none;
  correlation_id = none;
}

-- `Deny` with the one hint that the guard gives.
abbrev denied : String → CapabilityGuardDecision
denied reason = deny reason (some recovery_hint_fallback_unavailable)

-- The tests behind the match on `capability_id`, in the source's order.
guard_id : String → CapabilityGuardDecision
guard_id id =
    if is_empty (trim id)
    then denied reason_unknown_capability_id
    else if not (is_known_capability_id id)
    then denied reason_unknown_capability_id
    else if id == interaction_type_text
    then denied reason_interaction_type_text_not_supported
    else if id == interaction_send_shortcut
    then denied reason_interaction_send_shortcut_not_supported
    else if starts_with id "admin." || starts_with id "data."
    then denied reason_future_capability_not_implemented
    else if not (is_executable_today id)
    then denied reason_capability_not_executable_today
    else allow

guard_optional : Option String → CapabilityGuardDecision
guard_optional none = denied reason_unknown_capability_id
guard_optional (some id) = guard_id id

unfoldable pub guard_capability : CapabilityGuardInput → CapabilityGuardDecision
unfolding guard_optional guard_id
guard_capability input = guard_optional input.capability_id

unfoldable pub guard_interaction_kind : InteractionKind → CapabilityGuardDecision
unfolding guard_capability capability_id_for_interaction
guard_interaction_kind kind = guard_capability (record {
  capability_id = capability_id_for_interaction kind;
  action_kind = some kind;
  source = some "interaction";
  correlation_id = none;
})

unfoldable pub guard_demo_kind : String → CapabilityGuardDecision
unfolding guard_capability
guard_demo_kind kind = guard_capability (record {
  capability_id = some (capability_id_for_plan kind);
  action_kind = none;
  source = some "demo";
  correlation_id = none;
})
