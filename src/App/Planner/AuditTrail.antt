-- ===== src/App/Planner/AuditTrail.antt =====
-- What the continuation of a demo plan in core/src/app.rs records in the audit store.
use smolit_assistant.Base.{ℕ, ◌+◌, String, false, ◌≡◌, refl, List, [], ◌∷◌}
use smolit_assistant.Plan.{DemoPlan, DemoPlanStatus, is_terminal}
use smolit_assistant.Messages.{
  ApprovalDecision, approved, denied, cancelled, timed_out, decision_str,
}
use smolit_assistant.Audit.{
  AuditKind, with_approval_id, with_result, source_core, result_completed, result_denied,
  result_cancelled, result_expired,
}
use smolit_assistant.Audit.Store.Ring.{Entry, record_all}
use smolit_assistant.App.State.{Env, App, broadcast, record_audit}
use smolit_assistant.App.Planner.{
  plan_fields, execute_demo_plan, cancel_plan, record_plan_cancel_audit, after_decision,
  await_and_execute_demo_plan,
}
use smolit_assistant.App.Planner.Traces.{set_status_open}

module _ {W : Type 0} (env : Env W) where
  -- The entry of a cancellation.
  abbrev pub cancel_entry : DemoPlan → String → String → String → ℕ → Entry
  cancel_entry plan correlation_id result source n = (
    env.clock n,
    AuditKind.action_cancelled,
    with_result result (plan_fields plan source plan.title correlation_id),
  )

  -- The entries after the one of the resolution; `n` is the number of clock readings before them.
  abbrev pub trail : DemoPlan → String → ApprovalDecision → String → ℕ → List Entry
  trail plan correlation_id approved source n =
      (
        env.clock n,
        AuditKind.action_started,
        plan_fields plan source_core plan.title correlation_id,
      )
      ∷ (
        env.clock (n + 1),
        AuditKind.action_completed,
        with_result result_completed (plan_fields plan source_core plan.title correlation_id),
      )
      ∷ []
  trail plan correlation_id denied source n =
      cancel_entry plan correlation_id result_denied source n ∷ []
  trail plan correlation_id cancelled source n =
      cancel_entry plan correlation_id result_cancelled source n ∷ []
  trail plan correlation_id timed_out source n =
      cancel_entry plan correlation_id result_expired source n ∷ []

  execute-audit :
      (plan : DemoPlan) (correlation_id source : String) (s : App W)
      → is_terminal plan.status ≡ false
      → (execute_demo_plan env plan correlation_id s).audit
        ≡ (record_all s.audit (trail plan correlation_id approved source s.readings)).0
  unfolding execute_demo_plan broadcast record_audit record_all
  execute-audit plan correlation_id source s h =
      rw (h, set_status_open plan DemoPlanStatus.running h)
        (rw
          (set_status_open (record plan { status = DemoPlanStatus.running })
            DemoPlanStatus.completed refl)
          refl)

  after_decision-audit :
      (plan : DemoPlan) (correlation_id : String) (decision : ApprovalDecision) (source : String)
      (s : App W)
      → is_terminal plan.status ≡ false
      → (after_decision env plan correlation_id decision source s).audit
        ≡ (record_all s.audit (trail plan correlation_id decision source s.readings)).0
  unfolding after_decision cancel_plan broadcast record_plan_cancel_audit record_audit record_all
  after_decision-audit plan correlation_id approved source s h =
      rw (set_status_open plan DemoPlanStatus.approved h) (
        execute-audit (record plan { status = DemoPlanStatus.approved }) correlation_id source s
          refl)
  after_decision-audit plan correlation_id denied source s h =
      rw (set_status_open plan DemoPlanStatus.denied h) refl
  after_decision-audit plan correlation_id cancelled source s h =
      rw (set_status_open plan DemoPlanStatus.denied h) refl
  after_decision-audit plan correlation_id timed_out source s h =
      rw (set_status_open plan DemoPlanStatus.expired h) refl

  trail_open :
      (p : DemoPlan) (next : DemoPlanStatus) (correlation_id : String) (d : ApprovalDecision)
      (source : String) (n : ℕ)
      → trail (record p { status = next }) correlation_id d source n
        ≡ trail p correlation_id d source n
  trail_open p next correlation_id approved source n = refl
  trail_open p next correlation_id denied source n = refl
  trail_open p next correlation_id cancelled source n = refl
  trail_open p next correlation_id timed_out source n = refl

  -- For an open plan the continuation leaves exactly these entries, in this order: the resolution with the
  -- decision's word and its source, and then for an approval the start and the completion of the plan, for
  -- any other decision one cancellation.
  pub await_and_execute_demo_plan-audit :
      (plan : DemoPlan) (approval_id correlation_id : String) (decision : ApprovalDecision)
      (source : String) (s : App W)
      → is_terminal plan.status ≡ false
      → (await_and_execute_demo_plan env plan approval_id correlation_id decision source s).audit
        ≡ (record_all s.audit (
            (
              env.clock s.readings,
              AuditKind.approval_resolved,
              with_approval_id approval_id (
                  with_result
                    (decision_str decision)
                    (plan_fields plan source plan.title correlation_id)),
            )
            ∷ trail plan correlation_id decision source (s.readings + 1))).0
  unfolding await_and_execute_demo_plan broadcast record_audit record_all
  await_and_execute_demo_plan-audit plan approval_id correlation_id decision source s h =
      rw (set_status_open plan DemoPlanStatus.waiting_approval h) (
        rw
          (← trail_open plan DemoPlanStatus.waiting_approval correlation_id decision source
            (s.readings + 1))
          (after_decision-audit (record plan { status = DemoPlanStatus.waiting_approval })
            correlation_id decision source _ refl))
