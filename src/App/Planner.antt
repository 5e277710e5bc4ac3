-- ===== src/App/Planner.antt =====
-- The demo planner of core/src/app.rs. A function whose source waits for a
-- decision is given the decision and its source: the wait itself is in App/Tasks.
pub mod Harmless
pub mod AuditTrail
pub mod Traces
use smolit_assistant.Base.{
  ℕ, String, Bool, Option, none, some, List, [], ◌∷◌, ◌++◌, is_empty, trim, or_else, ◌==◌,
  if◌then◌else◌,
}
use Prim.Native.String
use smolit_assistant.Kinds.{open_application, demo_kind_wait}
use smolit_assistant.Capabilities.{assistant_plan_demo_action, capability_id_for_plan}
use smolit_assistant.Guard.{
  CapabilityGuardDecision, allow, deny, guard_capability, for_capability, guard_demo_kind,
  recovery_hint_fallback_unavailable,
}
use smolit_assistant.Plan
use smolit_assistant.Plan.{
  DemoPlan, DemoPlanStatus, sanitize_risk, set_status, is_terminal, step_label,
}
use smolit_assistant.Messages.{
  unknown_target, ActionKind, ActionPhase, ActionStatus, ApprovalDecision, approved, denied,
  cancelled, timed_out, decision_str, ApprovalRequest, OutgoingMessage, error, action_planned,
  action_started, action_step, action_completed, action_failed, action_cancelled,
  approval_requested, approval_resolved,
}
use smolit_assistant.Audit.{
  AuditKind, AuditFields, no_fields, with_action_id, with_approval_id, with_risk, with_result,
  with_source, with_summary, with_correlation_id, with_capability_id, source_ui, source_core,
  result_denied, result_cancelled, result_expired, result_completed, result_capability_guard_denied,
}
use smolit_assistant.App.State.{
  Env, App, Job, demo_only, demo_plan, Task, awaits, runs_plan, next_action_id, next_approval_id,
  broadcast, register_approval, spawn, generate_correlation_id, record_audit,
}

abbrev pub guard_denied_text : String → String
guard_denied_text reason = String.◌++◌ "capability_guard_denied: " reason

abbrev hint_text : Option String → String
hint_text hint = String.◌++◌ "recovery_hint=" (or_else hint recovery_hint_fallback_unavailable)

-- The fields that every audit entry of a plan carries.
abbrev pub plan_fields : DemoPlan → String → String → String → AuditFields
plan_fields plan source summary correlation_id =
    with_capability_id (capability_id_for_plan plan.kind) (
      with_correlation_id correlation_id (
        with_summary summary
          (with_source source (with_risk plan.risk (with_action_id plan.action_id no_fields)))))

abbrev pub resolved_message : String → String → ApprovalDecision → String → String → OutgoingMessage
resolved_message approval_id action_id decision source correlation_id = approval_resolved (record {
  approval_id = approval_id;
  action_id = action_id;
  decision = decision_str decision;
  source = source;
  correlation_id = some correlation_id;
})

module _ {W : Type 0} (env : Env W) where
  unfoldable pub execute_demo_plan : DemoPlan → String → App W → App W
  unfolding broadcast record_audit set_status is_terminal step_label
  execute_demo_plan plan correlation_id s =
      if is_terminal plan.status
      then s
      else (let running = (set_status plan DemoPlanStatus.running).0 in
          let s1 =
            broadcast
              (action_started (record {
                action_id = plan.action_id;
                phase = ActionPhase.started;
                correlation_id = some correlation_id;
              }))
              s in
          let s2 =
            record_audit env AuditKind.action_started
              (plan_fields running source_core running.title correlation_id) s1 in
          let s3 =
            broadcast
              (action_step (record {
                action_id = running.action_id;
                title = step_label running;
                description = none;
                correlation_id = some correlation_id;
              }))
              s2 in
          let done = (set_status running DemoPlanStatus.completed).0 in
          let s4 =
            broadcast
              (action_completed (record {
                action_id = done.action_id;
                status = ActionStatus.completed;
                message = some "Demo plan completed (no side effects)";
                correlation_id = some correlation_id;
              }))
              s3 in
          record_audit env AuditKind.action_completed
            (with_result result_completed (plan_fields done source_core done.title correlation_id))
            s4)

  unfoldable pub record_plan_cancel_audit : DemoPlan → String → String → String → App W → App W
  unfolding record_audit
  record_plan_cancel_audit plan result source correlation_id s =
      record_audit env AuditKind.action_cancelled
        (with_result result (plan_fields plan source plan.title correlation_id)) s

  -- A branch that does not run the plan.
  cancel_plan : DemoPlan → DemoPlanStatus → String → String → String → String → App W → App W
  unfolding broadcast record_plan_cancel_audit set_status
  cancel_plan plan status message result source correlation_id s =
      let closed = (set_status plan status).0 in
      let s1 =
        broadcast
          (action_cancelled (record {
            action_id = closed.action_id;
            status = ActionStatus.cancelled;
            message = some message;
            correlation_id = some correlation_id;
          }))
          s in
      record_plan_cancel_audit closed result source correlation_id s1

  after_decision : DemoPlan → String → ApprovalDecision → String → App W → App W
  unfolding cancel_plan execute_demo_plan set_status
  after_decision plan correlation_id approved source s =
      execute_demo_plan (set_status plan DemoPlanStatus.approved).0 correlation_id s
  after_decision plan correlation_id denied source s =
      cancel_plan plan DemoPlanStatus.denied "Action denied by user" result_denied source
        correlation_id s
  after_decision plan correlation_id cancelled source s =
      cancel_plan plan DemoPlanStatus.denied "Action cancelled" result_cancelled source
        correlation_id s
  after_decision plan correlation_id timed_out source s =
      cancel_plan plan DemoPlanStatus.expired "Approval expired" result_expired source
        correlation_id s

  unfoldable pub await_and_execute_demo_plan :
      DemoPlan → String → String → ApprovalDecision → String → App W → App W
  unfolding broadcast record_audit set_status after_decision decision_str
  await_and_execute_demo_plan plan approval_id correlation_id decision source s =
      let waiting_plan = (set_status plan DemoPlanStatus.waiting_approval).0 in
      let s1 =
        broadcast
          (resolved_message approval_id waiting_plan.action_id decision source correlation_id) s in
      let s2 =
        record_audit env AuditKind.approval_resolved
          (with_approval_id approval_id (
            with_result (decision_str decision)
              (plan_fields waiting_plan source waiting_plan.title correlation_id)))
          s1 in
      after_decision waiting_plan correlation_id decision source s2

  -- `requires_approval` of `plan_demo_action`: the request and the task that waits for the answer.
  gate_plan : DemoPlan → String → App W → List OutgoingMessage × App W
  unfolding next_approval_id register_approval record_audit spawn
  gate_plan plan correlation_id s =
      let (approval_id, s1) = next_approval_id s in
      let (c, s2) = register_approval approval_id s1 in
      let s3 =
        record_audit env AuditKind.approval_requested
          (with_approval_id approval_id (plan_fields plan source_core plan.title correlation_id))
          s2 in
      (
        approval_requested (record {
          approval_id = approval_id;
          action_id = plan.action_id;
          action_kind = open_application;
          title = plan.title;
          message = plan.summary;
          target = unknown_target;
          reason = some (String.◌++◌ "demo_plan:" plan.kind);
          timeout_seconds = s.timeout_seconds;
          selected_target = none;
          risk = plan.risk;
          correlation_id = some correlation_id;
          capability_id = some (capability_id_for_plan plan.kind);
        })
            ∷ [],
        spawn (awaits approval_id c Bool.false (demo_plan plan correlation_id)) s3,
      )

  refuse_plan : DemoPlan → String → String → Option String → App W → List OutgoingMessage × App W
  unfolding record_audit
  refuse_plan plan correlation_id reason hint s = (
    action_failed (record {
      action_id = plan.action_id;
      status = ActionStatus.failed;
      message = guard_denied_text reason;
      error = some (hint_text hint);
      correlation_id = some correlation_id;
    })
        ∷ [],
    record_audit env AuditKind.action_failed
        (with_result result_capability_guard_denied (
          plan_fields plan source_core
            (String.◌++◌ plan.title (String.◌++◌ " [guard:" (String.◌++◌ reason "]")))
            correlation_id))
        s,
  )

  plan_message : DemoPlan → String → OutgoingMessage
  plan_message plan correlation_id = action_planned (record {
    action_id = plan.action_id;
    action_kind = ActionKind.system;
    title = plan.title;
    description = some plan.summary;
    target = unknown_target;
    mapping = none;
    correlation_id = some correlation_id;
  })

  announce_plan : DemoPlan → String → App W → List OutgoingMessage × App W
  unfolding record_audit spawn gate_plan plan_message
  announce_plan plan correlation_id s =
      let s1 =
        record_audit env AuditKind.ipc_command_received
          (plan_fields plan source_ui (String.◌++◌ "plan_demo_action kind=" plan.kind)
            correlation_id)
          s in
      let s2 =
        record_audit env AuditKind.action_planned
          (plan_fields plan source_core plan.title correlation_id) s1 in
      let (gated, s3) = gate_plan plan correlation_id s2 in
      if plan.requires_approval
      then (plan_message plan correlation_id ∷ gated, s3)
      else (plan_message plan correlation_id ∷ [], spawn (runs_plan plan correlation_id) s2)

  unfoldable pub plan_demo_action :
      String → String → String → String → Bool → App W → List OutgoingMessage × App W
  unfolding next_action_id generate_correlation_id Plan.new guard_demo_kind refuse_plan
      announce_plan
  plan_demo_action title summary kind risk requires_approval s =
      let (action_id, s1) = next_action_id s in
      let plan = Plan.new action_id title summary kind risk requires_approval in
      let (correlation_id, s2) = generate_correlation_id env s1 in
      elim (guard_demo_kind plan.kind) [
        | deny reason hint ↦ refuse_plan plan correlation_id reason hint s2
        | allow ↦ announce_plan plan correlation_id s2
      ]
