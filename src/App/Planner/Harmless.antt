-- ===== src/App/Planner/Harmless.antt =====
-- The demo planner of core/src/app.rs and the desktop.
use smolit_assistant.Base.{String, Bool, inl, inr, Bool-cases}
use smolit_assistant.Capabilities.{assistant_plan_demo_action}
use smolit_assistant.Guard.{guard_capability, for_capability, guard_demo_kind}
use smolit_assistant.Plan
use smolit_assistant.Plan.{DemoPlan, DemoPlanStatus, is_terminal, set_status}
use smolit_assistant.Messages.{ApprovalDecision, approved, denied, cancelled, timed_out}
use smolit_assistant.App.State.{Env, App, next_action_id}
use smolit_assistant.App.Planner.{
  execute_demo_plan, record_plan_cancel_audit, cancel_plan, after_decision,
  await_and_execute_demo_plan, gate_plan, refuse_plan, announce_plan, plan_demo_action,
}
use smolit_assistant.App.DemoApproval.{
  issue_demo_approval, request_approval_demo, await_and_resolve_demo,
}
use smolit_assistant.App.Quiet.{
  Quiet, ◌⨾◌, still, decision-cases, next_action_id-Quiet, next_approval_id-Quiet, broadcast-Quiet,
  spawn-Quiet, register_approval-Quiet, generate_correlation_id-Quiet, record_audit-Quiet,
}

module _ {W : Type 0} (env : Env W) where
  issue-Quiet :
      (title summary risk : String) (s : App W)
      → Quiet s (issue_demo_approval env title summary risk s).1
  unfolding issue_demo_approval
  issue-Quiet title summary risk s =
      next_approval_id-Quiet s
      ⨾ generate_correlation_id-Quiet env _
      ⨾ register_approval-Quiet _ _
      ⨾ spawn-Quiet _ _

  pub request_approval_demo-Quiet :
      (title summary risk : String) (s : App W)
      → Quiet s (request_approval_demo env title summary risk s).1
  unfolding request_approval_demo
  request_approval_demo-Quiet title summary risk s =
      elim (decision-cases (guard_capability (for_capability assistant_plan_demo_action))) [
        | inl e ↦ rw (e, request_approval_demo) (issue-Quiet title summary risk s)
        | inr (reason, hint, e) ↦ rw (e, request_approval_demo) (still s)
      ]

  pub await_and_resolve_demo-Quiet :
      (approval_id correlation_id : String) (decision : ApprovalDecision) (source : String)
      (s : App W)
      → Quiet s (await_and_resolve_demo env approval_id correlation_id decision source s)
  unfolding await_and_resolve_demo
  await_and_resolve_demo-Quiet approval_id correlation_id decision source s = broadcast-Quiet _ s

  pub execute_demo_plan-Quiet :
      (plan : DemoPlan) (correlation_id : String) (s : App W)
      → Quiet s (execute_demo_plan env plan correlation_id s)
  unfolding execute_demo_plan
  execute_demo_plan-Quiet plan correlation_id s = elim (Bool-cases (is_terminal plan.status)) [
    | inl over ↦ rw (over, execute_demo_plan) (still s)
    | inr fresh ↦
        rw (fresh, execute_demo_plan)
          (broadcast-Quiet _ s
            ⨾ record_audit-Quiet env _ _ _
            ⨾ broadcast-Quiet _ _
            ⨾ broadcast-Quiet _ _
            ⨾ record_audit-Quiet env _ _ _)
  ]

  cancel_plan-Quiet :
      (plan : DemoPlan) (status : DemoPlanStatus) (message result source correlation_id : String)
      (s : App W)
      → Quiet s (cancel_plan env plan status message result source correlation_id s)
  unfolding cancel_plan record_plan_cancel_audit
  cancel_plan-Quiet plan status message result source correlation_id s =
      broadcast-Quiet _ s ⨾ record_audit-Quiet env _ _ _

  after_decision-Quiet :
      (plan : DemoPlan) (correlation_id : String) (decision : ApprovalDecision) (source : String)
      (s : App W)
      → Quiet s (after_decision env plan correlation_id decision source s)
  unfolding after_decision
  after_decision-Quiet plan correlation_id approved source s = execute_demo_plan-Quiet _ _ s
  after_decision-Quiet plan correlation_id denied source s = cancel_plan-Quiet _ _ _ _ _ _ s
  after_decision-Quiet plan correlation_id cancelled source s = cancel_plan-Quiet _ _ _ _ _ _ s
  after_decision-Quiet plan correlation_id timed_out source s = cancel_plan-Quiet _ _ _ _ _ _ s

  pub await_and_execute_demo_plan-Quiet :
      (plan : DemoPlan) (approval_id correlation_id : String) (decision : ApprovalDecision)
      (source : String) (s : App W)
      → Quiet s (await_and_execute_demo_plan env plan approval_id correlation_id decision source s)
  unfolding await_and_execute_demo_plan
  await_and_execute_demo_plan-Quiet plan approval_id correlation_id decision source s =
      broadcast-Quiet _ s ⨾ record_audit-Quiet env _ _ _ ⨾ after_decision-Quiet _ _ decision _ _

  gate_plan-Quiet :
      (plan : DemoPlan) (correlation_id : String) (s : App W)
      → Quiet s (gate_plan env plan correlation_id s).1
  unfolding gate_plan
  gate_plan-Quiet plan correlation_id s =
      next_approval_id-Quiet s
      ⨾ register_approval-Quiet _ _
      ⨾ record_audit-Quiet env _ _ _
      ⨾ spawn-Quiet _ _

  announce_plan-Quiet :
      (plan : DemoPlan) (correlation_id : String) (s : App W)
      → Quiet s (announce_plan env plan correlation_id s).1
  unfolding announce_plan
  announce_plan-Quiet plan correlation_id s = elim (Bool-cases plan.requires_approval) [
    | inl e ↦
        rw (e, announce_plan)
          (record_audit-Quiet env _ _ s ⨾ record_audit-Quiet env _ _ _ ⨾ gate_plan-Quiet _ _ _)
    | inr e ↦
        rw (e, announce_plan)
          (record_audit-Quiet env _ _ s ⨾ record_audit-Quiet env _ _ _ ⨾ spawn-Quiet _ _)
  ]

  pub plan_demo_action-Quiet :
      (title summary kind risk : String) (requires_approval : Bool) (s : App W)
      → Quiet s (plan_demo_action env title summary kind risk requires_approval s).1
  unfolding plan_demo_action refuse_plan
  plan_demo_action-Quiet title summary kind risk requires_approval s =
      let plan = Plan.new (next_action_id s).0 title summary kind risk requires_approval in
      let start = next_action_id-Quiet s ⨾ generate_correlation_id-Quiet env _ in
      elim (decision-cases (guard_demo_kind plan.kind)) [
        | inl e ↦ rw (e, plan_demo_action) (start ⨾ announce_plan-Quiet plan _ _)
        | inr (reason, hint, e) ↦ rw (e, plan_demo_action) (start ⨾ record_audit-Quiet env _ _ _)
      ]
