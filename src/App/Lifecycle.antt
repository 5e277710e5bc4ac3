-- ===== src/App/Lifecycle.antt =====
-- The text of an approval card and the audit entries of an action, of core/src/app.rs.
use smolit_assistant.Base.{String, len, Option, none, some, List, [], ◌∷◌, if◌then◌else◌}
use Prim.Native.String
use text.Mathlib.Text.{starts_with}
use smolit_assistant.Kinds.{
  InteractionKind, open_application, focus_window, type_text, send_shortcut, noop, unknown,
  kind_str,
}
use smolit_assistant.Capabilities.{capability_id_for_interaction}
use smolit_assistant.Messages.{
  ActionStatus, ApprovalDecision, approved, denied, cancelled, timed_out, SelectedTarget,
  OutgoingMessage, action_started, action_completed, action_failed, action_cancelled,
}
use smolit_assistant.Audit.{
  AuditKind, AuditFields, no_fields, with_action_id, with_result, with_source, with_summary,
  with_correlation_id_opt, with_capability_id_opt, source_core, result_approved, result_denied,
  result_cancelled, result_expired, result_completed, result_failed,
}
use smolit_assistant.Action.{InteractionAction, action_kind_of}
use smolit_assistant.Interaction.Selection.{short_label}
use smolit_assistant.App.State.{Env, App, record_audit}

-- `strip_prefix("Focus ").unwrap_or(..)`; the prefix has six bytes.
abbrev pub without_focus : String → String
without_focus title = if starts_with title "Focus " then String.slice title 6 (len title) else title

unfoldable pub message_base : (String → String) → InteractionAction → InteractionKind → String
message_base to_lowercase action open_application =
    String.◌++◌ "Smolit möchte " (to_lowercase action.title)
message_base to_lowercase action focus_window =
    String.◌++◌ "Smolit möchte das Fenster \""
      (String.◌++◌ (without_focus action.title) "\" fokussieren.")
message_base to_lowercase action type_text =
    String.◌++◌ "Smolit möchte Text eingeben: " action.title
message_base to_lowercase action send_shortcut =
    String.◌++◌ "Smolit möchte einen Shortcut senden: " action.title
message_base to_lowercase action noop =
    String.◌++◌ "Confirm " (String.◌++◌ (kind_str noop) (String.◌++◌ ": " action.title))
message_base to_lowercase action unknown =
    String.◌++◌ "Confirm " (String.◌++◌ (kind_str unknown) (String.◌++◌ ": " action.title))

unfoldable pub approval_message :
    (String → String) → InteractionAction → Option SelectedTarget → String
unfolding message_base
approval_message to_lowercase action none = message_base to_lowercase action (action_kind_of action)
approval_message to_lowercase action (some target) =
    String.◌++◌ (message_base to_lowercase action (action_kind_of action))
      (String.◌++◌ " Ziel: " (short_label target))

-- The fields that every audit entry of an interaction carries.
abbrev pub action_fields : InteractionAction → String → String → Option String → AuditFields
action_fields action source summary correlation_id =
    with_capability_id_opt (capability_id_for_interaction (action_kind_of action)) (
      with_correlation_id_opt correlation_id
        (with_summary summary (with_source source (with_action_id action.action_id no_fields))))

abbrev pub status_result : ActionStatus → String
status_result ActionStatus.completed = result_completed
status_result ActionStatus.failed = result_failed
status_result ActionStatus.cancelled = result_cancelled

-- `resolved_result`, and `cancel_result` where it is not `approved`.
abbrev pub decision_result : ApprovalDecision → String
decision_result approved = result_approved
decision_result denied = result_denied
decision_result cancelled = result_cancelled
decision_result timed_out = result_expired

module _ {W : Type 0} (env : Env W) where
  unfoldable pub audit_message : InteractionAction → OutgoingMessage → App W → App W
  unfolding record_audit
  audit_message action (action_started p) s =
      record_audit env AuditKind.action_started
        (action_fields action source_core action.title action.correlation_id) s
  audit_message action (action_completed p) s =
      record_audit env AuditKind.action_completed
        (with_result (status_result p.status)
          (action_fields action source_core action.title action.correlation_id))
        s
  audit_message action (action_failed p) s =
      record_audit env AuditKind.action_failed
        (with_result result_failed
          (action_fields action source_core action.title action.correlation_id))
        s
  audit_message action (action_cancelled p) s =
      record_audit env AuditKind.action_cancelled
        (with_result result_cancelled
          (action_fields action source_core action.title action.correlation_id))
        s
  audit_message action _ s = s

  unfoldable pub record_interaction_lifecycle_audit :
      InteractionAction → List OutgoingMessage → App W → App W
  unfolding audit_message
  record_interaction_lifecycle_audit action [] s = s
  record_interaction_lifecycle_audit action (msg ∷ msgs) s =
      record_interaction_lifecycle_audit action msgs (audit_message action msg s)
