-- ===== src/Ipc.antt =====
-- core/src/ipc/server.rs and core/src/ipc/protocol.rs: the client's requests that take part in the
-- action, approval, selection and audit flows, and their handlers.
pub mod Gated
pub mod Services
use smolit_assistant.Base.{ℕ, String, Bool, false, Option, none, some, List, [], ◌∷◌, min, or_else}
use smolit_assistant.Messages.{
  SelectedTarget, IncomingApprovalDecision, to_decision, OutgoingMessage, error, audit_recent,
}
use smolit_assistant.Audit.{
  AuditKind, no_fields, with_approval_id, with_result, with_source, with_summary, source_ui,
  result_rejected,
}
use smolit_assistant.Audit.Store.{list_recent, hard_max_events}
use smolit_assistant.App.State.{Env, App, record_audit}
use smolit_assistant.App.Planner.{plan_demo_action}
use smolit_assistant.App.DemoApproval.{request_approval_demo}
use smolit_assistant.App.Dispatch.{execute_open_application, execute_focus_window}
use smolit_assistant.App.Targets.{
  InteractionFocusTarget, select_target, clear_target, resolve_approval,
}

-- The fields stand in the source's order.
pub data IncomingMessage : Type 0 where
  interaction_open_application : String → IncomingMessage
  interaction_focus_window : InteractionFocusTarget → IncomingMessage
  interaction_select_target : SelectedTarget → IncomingMessage
  interaction_clear_target : IncomingMessage
  approval_response : String → IncomingApprovalDecision → IncomingMessage
  approval_approve : String → IncomingMessage
  approval_deny : String → IncomingMessage
  request_approval_demo_message : Option String → Option String → Option String → IncomingMessage
  plan_demo_action_message :
      Option String → Option String → Option String → Option String → Option Bool → IncomingMessage
  audit_recent_message : Option ℕ → IncomingMessage

abbrev pub text_or_default : Option String → String
text_or_default o = or_else o ""

abbrev bounded_limit : Option ℕ → Option ℕ
bounded_limit none = none
bounded_limit (some n) = some (min n hard_max_events)

module _ {W : Type 0} where
  unfoldable pub handle_audit_recent : Option ℕ → App W → List OutgoingMessage × App W
  unfolding list_recent
  handle_audit_recent limit s = (audit_recent (list_recent s.audit (bounded_limit limit)) ∷ [], s)

module _ {W : Type 0} (env : Env W) where
  unfoldable pub report_resolution : String → Option String → App W → List OutgoingMessage × App W
  unfolding record_audit
  report_resolution approval_id none s = ([], s)
  report_resolution approval_id (some message) s = (
    error message ∷ [],
    record_audit env AuditKind.ipc_command_rejected
        (with_summary message (
          with_source source_ui
            (with_result result_rejected (with_approval_id approval_id no_fields))))
        s,
  )

  unfoldable pub handle_approval_response :
      String → IncomingApprovalDecision → App W → List OutgoingMessage × App W
  unfolding resolve_approval to_decision report_resolution
  handle_approval_response approval_id decision s =
      let (refusal, s1) = resolve_approval approval_id (to_decision decision) s in
      report_resolution approval_id refusal s1

  unfoldable pub handle : IncomingMessage → App W → List OutgoingMessage × App W
  unfolding execute_open_application execute_focus_window select_target clear_target
      handle_approval_response request_approval_demo plan_demo_action handle_audit_recent
  handle (interaction_open_application application) s = execute_open_application env application s
  handle (interaction_focus_window target) s = execute_focus_window env target s
  handle (interaction_select_target target) s = select_target target s
  handle interaction_clear_target s = clear_target s
  handle (approval_response approval_id decision) s =
      handle_approval_response approval_id decision s
  handle (approval_approve approval_id) s =
      handle_approval_response approval_id IncomingApprovalDecision.approved s
  handle (approval_deny approval_id) s =
      handle_approval_response approval_id IncomingApprovalDecision.denied s
  handle (request_approval_demo_message title summary risk) s =
      request_approval_demo env (text_or_default title) (text_or_default summary)
        (text_or_default risk) s
  handle (plan_demo_action_message title summary risk kind requires_approval) s =
      plan_demo_action env (text_or_default title) (text_or_default summary) (text_or_default kind)
        (text_or_default risk) (or_else requires_approval false) s
  handle (audit_recent_message limit) s = handle_audit_recent limit s
