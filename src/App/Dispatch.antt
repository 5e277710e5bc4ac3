-- ===== src/App/Dispatch.antt =====
-- The interaction path of core/src/app.rs: dispatch behind guard, policy and approval, and
-- the continuation after the decision. The wait itself is in App/Tasks.
pub mod Gated
pub mod Continued
pub mod AuditTrail
pub mod Refusals
pub mod Answered
pub mod Traces
use smolit_assistant.Base.{
  ℕ, String, len, Bool, true, false, ◌&&◌, Option, none, some, List, [], ◌∷◌, ◌++◌, or_option,
  or_else, if◌then◌else◌,
}
use Prim.Native.String
use text.Mathlib.Text.{starts_with}
use smolit_assistant.Kinds.{
  InteractionKind, open_application, focus_window, type_text, send_shortcut, noop, unknown,
  kind_str, risk_medium,
}
use smolit_assistant.Capabilities.{capability_id_for_interaction}
use smolit_assistant.Guard.{
  CapabilityGuardDecision, allow, deny, guard_interaction_kind, recovery_hint_fallback_unavailable,
}
use smolit_assistant.Messages.{
  ActionPhase, ActionStatus, ApprovalDecision, approved, denied, cancelled, timed_out, decision_str,
  SelectedTarget, OutgoingMessage, error, action_planned, action_started, action_step,
  action_completed, action_failed, action_cancelled, approval_requested, approval_resolved,
  target_selected, target_cleared,
}
use smolit_assistant.Audit.{
  AuditKind, AuditFields, no_fields, with_action_id, with_approval_id, with_risk, with_result,
  with_source, with_summary, with_correlation_id, with_correlation_id_opt, with_capability_id_opt,
  source_ui, source_core, result_approved, result_denied, result_cancelled, result_expired,
  result_completed, result_failed, result_capability_guard_denied,
}
use smolit_assistant.Interaction.{InteractionPolicy, allows, planned, refusal_events, run_approved}
use smolit_assistant.Action.{
  InteractionAction, InteractionError, action_kind_of, open_application_action, focus_window_action,
}
use smolit_assistant.Interaction.Selection.{
  Normalized, ok, err, normalize_with_fallback_id, error_message, short_label,
}
use smolit_assistant.Approvals
use smolit_assistant.Approvals.{PendingApprovalError, unknown_id, closed}
use smolit_assistant.App.State.{
  Env, App, Job, interaction, Task, awaits, next_action_id, next_approval_id, next_selection_id,
  broadcast, register_approval, spawn, generate_correlation_id, record_audit,
}
use smolit_assistant.App.Targets.{
  InteractionFocusTarget, application_focus, clear_target, focus_arguments, resolution_error,
  resolve_approval, select_target, store_selection, window_focus,
}
use smolit_assistant.App.Lifecycle.{
  action_fields, approval_message, audit_message, decision_result, message_base,
  record_interaction_lifecycle_audit, status_result, without_focus,
}

module _ {W : Type 0} (env : Env W) where
  unfoldable pub emit_capability_guard_denied :
      InteractionAction → String → Option String → String → App W → List OutgoingMessage × App W
  unfolding record_audit
  emit_capability_guard_denied action reason hint correlation_id s = (
    action_started (record {
      action_id = action.action_id;
      phase = ActionPhase.started;
      correlation_id = some correlation_id;
    })
        ∷ action_failed (record {
          action_id = action.action_id;
          status = ActionStatus.failed;
          message = String.◌++◌ "capability_guard_denied: " reason;
          error =
              some (String.◌++◌ "recovery_hint=" (or_else hint recovery_hint_fallback_unavailable));
          correlation_id = some correlation_id;
        })
        ∷ [],
    record_audit env AuditKind.action_failed
        (with_result result_capability_guard_denied (
          action_fields action source_core
            (String.◌++◌ action.title (String.◌++◌ " [guard:" (String.◌++◌ reason "]")))
            (some correlation_id)))
        s,
  )

  -- The run of the backend, its audit entries first and then its messages.
  run_now : InteractionAction → App W → List OutgoingMessage × App W
  unfolding run_approved record_interaction_lifecycle_audit
  run_now action s =
      let (w, msgs) = run_approved env.backend s.world action in
      (msgs, record_interaction_lifecycle_audit env action msgs (record s { world = w }))

  request_approval : InteractionAction → String → App W → List OutgoingMessage × App W
  unfolding next_approval_id register_approval record_audit spawn approval_message
  request_approval action correlation_id s =
      let (approval_id, s1) = next_approval_id s in
      let (c, s2) = register_approval approval_id s1 in
      let s3 =
        record_audit env AuditKind.approval_requested
          (with_approval_id approval_id (
            with_risk risk_medium
              (action_fields action source_core action.title (some correlation_id))))
          s2 in
      (
        approval_requested (record {
          approval_id = approval_id;
          action_id = action.action_id;
          action_kind = action_kind_of action;
          title = action.title;
          message = approval_message env.to_lowercase action s.selected_target;
          target = action.target;
          reason = none;
          timeout_seconds = s.timeout_seconds;
          selected_target = s.selected_target;
          risk = risk_medium;
          correlation_id = some correlation_id;
          capability_id = capability_id_for_interaction (action_kind_of action);
        })
            ∷ [],
        spawn (awaits approval_id c false (interaction action)) s3,
      )

  refuse_by_policy :
      InteractionAction → InteractionError → String → App W → List OutgoingMessage × App W
  unfolding refusal_events record_audit
  refuse_by_policy action e correlation_id s = (
    refusal_events action.action_id e (some correlation_id),
    record_audit env AuditKind.action_failed
        (with_result result_failed
          (action_fields action source_core action.title (some correlation_id)))
        s,
  )

  -- The part of `dispatch_interaction` behind the announcement: guard, policy, confirmation.
  pass_gates : InteractionAction → String → App W → List OutgoingMessage × App W
  unfolding guard_interaction_kind emit_capability_guard_denied allows refuse_by_policy run_now
      request_approval
  pass_gates action correlation_id s = elim (guard_interaction_kind (action_kind_of action)) [
    | deny reason hint ↦ emit_capability_guard_denied action reason hint correlation_id s
    | allow ↦ elim (allows s.policy (action_kind_of action)) [
      | some e ↦ refuse_by_policy action e correlation_id s
      | none ↦
          if action.requires_confirmation && s.policy.require_confirmation
          then request_approval action correlation_id s
          else run_now action s
    ]
  ]

  -- The action's correlation identifier, or a fresh one.
  unfoldable pub correlate : Option String → App W → String × App W
  unfolding generate_correlation_id
  correlate (some existing) s = (existing, s)
  correlate none s = generate_correlation_id env s

  announce : InteractionAction → String → App W → App W
  unfolding record_audit
  announce action correlation_id s =
      let s1 =
        record_audit env AuditKind.ipc_command_received
          (action_fields action source_ui
            (String.◌++◌ "interaction_"
              (String.◌++◌ (kind_str (action_kind_of action)) (String.◌++◌ ": " action.title)))
            (some correlation_id))
          s in
      record_audit env AuditKind.action_planned
        (action_fields action source_core action.title (some correlation_id)) s1

  unfoldable pub dispatch_interaction : InteractionAction → App W → List OutgoingMessage × App W
  unfolding correlate announce planned pass_gates
  dispatch_interaction given s =
      let (correlation_id, s1) = correlate given.correlation_id s in
      let action = record given { correlation_id = some correlation_id } in
      let (msgs, s2) = pass_gates action correlation_id (announce action correlation_id s1) in
      (planned action ∷ msgs, s2)

  unfoldable pub broadcast_all : List OutgoingMessage → App W → App W
  unfolding broadcast
  broadcast_all [] s = s
  broadcast_all (msg ∷ msgs) s = broadcast_all msgs (broadcast msg s)

  cancel_interaction : InteractionAction → String → ApprovalDecision → String → App W → App W
  unfolding broadcast record_audit
  cancel_interaction action message decision source s =
      let s1 =
        broadcast
          (action_cancelled (record {
            action_id = action.action_id;
            status = ActionStatus.cancelled;
            message = some message;
            correlation_id = action.correlation_id;
          }))
          s in
      record_audit env AuditKind.action_cancelled
        (with_result (decision_result decision)
          (action_fields action source action.title action.correlation_id))
        s1

  after_decision : InteractionAction → ApprovalDecision → String → App W → App W
  unfolding run_now broadcast_all cancel_interaction
  after_decision action approved source s =
      let (msgs, s1) = run_now action s in broadcast_all msgs s1
  after_decision action denied source s =
      cancel_interaction action "Action denied by user" denied source s
  after_decision action cancelled source s =
      cancel_interaction action "Action cancelled" cancelled source s
  after_decision action timed_out source s =
      cancel_interaction action "Approval timed out" timed_out source s

  unfoldable pub await_and_continue :
      InteractionAction → String → ApprovalDecision → String → App W → App W
  unfolding broadcast record_audit after_decision
  await_and_continue action approval_id decision source s =
      let s1 =
        broadcast
          (approval_resolved (record {
            approval_id = approval_id;
            action_id = action.action_id;
            decision = decision_str decision;
            source = source;
            correlation_id = action.correlation_id;
          }))
          s in
      let s2 =
        record_audit env AuditKind.approval_resolved
          (with_approval_id approval_id (
            with_risk risk_medium (
              with_result (decision_result decision)
                (action_fields action source action.title action.correlation_id))))
          s1 in
      after_decision action decision source s2

  unfoldable pub execute_open_application : String → App W → List OutgoingMessage × App W
  unfolding next_action_id open_application_action dispatch_interaction
  execute_open_application name s =
      let (action_id, s1) = next_action_id s in
      dispatch_interaction
        (record (open_application_action action_id name) { requires_confirmation = true }) s1

  unfoldable pub execute_focus_window :
      InteractionFocusTarget → App W → List OutgoingMessage × App W
  unfolding next_action_id focus_window_action dispatch_interaction focus_arguments
  execute_focus_window target s =
      let (title, app) = focus_arguments target in
      let (action_id, s1) = next_action_id s in
      dispatch_interaction
        (record (focus_window_action action_id title app) { requires_confirmation = true }) s1
