-- ===== src/App/Planner/Traces.antt =====
-- What the demo planner of core/src/app.rs broadcasts for each decision.
use smolit_assistant.Base.{
  String, false, ◌≡◌, refl, inl, inr, ap, ◌∙◌, none, some, List, [], ◌∷◌, ◌++◌, append_assoc,
}
use smolit_assistant.Plan.{DemoPlan, DemoPlanStatus, set_status, is_terminal, step_label}
use smolit_assistant.Plan.Status.{set_status_cases}
use smolit_assistant.Messages.{
  ActionPhase, ActionStatus, ApprovalDecision, approved, denied, cancelled, timed_out, decision_str,
  OutgoingMessage, action_started, action_step, action_completed, action_cancelled,
  approval_resolved,
}
use smolit_assistant.App.State.{Env, App, broadcast, record_audit}
use smolit_assistant.App.Planner.{
  resolved_message, execute_demo_plan, cancel_plan, record_plan_cancel_audit, after_decision,
  await_and_execute_demo_plan,
}

-- The three messages of a plan's run.
abbrev pub run_messages : DemoPlan → String → List OutgoingMessage
run_messages plan correlation_id =
    action_started (record {
      action_id = plan.action_id;
      phase = ActionPhase.started;
      correlation_id = some correlation_id;
    })
    ∷ action_step (record {
      action_id = plan.action_id;
      title = step_label plan;
      description = none;
      correlation_id = some correlation_id;
    })
    ∷ action_completed (record {
      action_id = plan.action_id;
      status = ActionStatus.completed;
      message = some "Demo plan completed (no side effects)";
      correlation_id = some correlation_id;
    })
    ∷ []

abbrev pub cancellation : DemoPlan → String → String → OutgoingMessage
cancellation plan correlation_id text = action_cancelled (record {
  action_id = plan.action_id;
  status = ActionStatus.cancelled;
  message = some text;
  correlation_id = some correlation_id;
})

-- What follows the resolution.
abbrev pub aftermath : DemoPlan → String → ApprovalDecision → List OutgoingMessage
aftermath plan correlation_id approved = run_messages plan correlation_id
aftermath plan correlation_id denied = cancellation plan correlation_id "Action denied by user" ∷ []
aftermath plan correlation_id cancelled = cancellation plan correlation_id "Action cancelled" ∷ []
aftermath plan correlation_id timed_out = cancellation plan correlation_id "Approval expired" ∷ []

-- An open plan takes any status.
pub set_status_open :
    (p : DemoPlan) (next : DemoPlanStatus)
    → is_terminal p.status ≡ false
    → (set_status p next).0 ≡ record p { status = next }
set_status_open p next h = elim (set_status_cases p next) [
  | inl (_, _, e) ↦ ap (λ q. q.0) e
  | inr (inl over, e) ↦ cc
  | inr (inr same, e) ↦ ap (λ q. q.0) e ∙ ap (λ st. record p { status = st }) same
]

append_three {ℓ} :
    {A : Type ℓ} (xs : List A) (a b c : A)
    → ((xs ++ a ∷ []) ++ b ∷ []) ++ c ∷ [] ≡ xs ++ a ∷ b ∷ c ∷ []
append_three xs a b c =
    ap (λ l. l ++ c ∷ []) (append_assoc xs (a ∷ []) (b ∷ []))
    ∙ append_assoc xs (a ∷ b ∷ []) (c ∷ [])

-- The status of a plan does not show in its messages.
aftermath_open :
    (p : DemoPlan) (next : DemoPlanStatus) (correlation_id : String) (d : ApprovalDecision)
    → aftermath (record p { status = next }) correlation_id d ≡ aftermath p correlation_id d
unfolding step_label
aftermath_open p next correlation_id approved = refl
aftermath_open p next correlation_id denied = refl
aftermath_open p next correlation_id cancelled = refl
aftermath_open p next correlation_id timed_out = refl

module _ {W : Type 0} (env : Env W) where
  execute-broadcasts :
      (plan : DemoPlan) (correlation_id : String) (s : App W)
      → is_terminal plan.status ≡ false
      → (execute_demo_plan env plan correlation_id s).broadcasts
        ≡ s.broadcasts ++ run_messages plan correlation_id
  unfolding execute_demo_plan broadcast record_audit
  execute-broadcasts plan correlation_id s h =
      rw (h, set_status_open plan DemoPlanStatus.running h)
        (rw
          (set_status_open (record plan { status = DemoPlanStatus.running })
            DemoPlanStatus.completed refl)
          (append_three s.broadcasts _ _ _))

  after_decision-broadcasts :
      (plan : DemoPlan) (correlation_id : String) (decision : ApprovalDecision) (source : String)
      (s : App W)
      → is_terminal plan.status ≡ false
      → (after_decision env plan correlation_id decision source s).broadcasts
        ≡ s.broadcasts ++ aftermath plan correlation_id decision
  unfolding after_decision cancel_plan broadcast record_plan_cancel_audit record_audit
  after_decision-broadcasts plan correlation_id approved source s h =
      rw (set_status_open plan DemoPlanStatus.approved h) (
        execute-broadcasts (record plan { status = DemoPlanStatus.approved }) correlation_id s refl)
  after_decision-broadcasts plan correlation_id denied source s h =
      rw (set_status_open plan DemoPlanStatus.denied h) refl
  after_decision-broadcasts plan correlation_id cancelled source s h =
      rw (set_status_open plan DemoPlanStatus.denied h) refl
  after_decision-broadcasts plan correlation_id timed_out source s h =
      rw (set_status_open plan DemoPlanStatus.expired h) refl

  -- For an open plan the continuation broadcasts the resolution, and then: on an approval the start, the
  -- step and the completion of the plan; on any other decision one cancellation with its text.
  pub await_and_execute_demo_plan-broadcasts :
      (plan : DemoPlan) (approval_id correlation_id : String) (decision : ApprovalDecision)
      (source : String) (s : App W)
      → is_terminal plan.status ≡ false
      → (await_and_execute_demo_plan env plan approval_id correlation_id decision source
          s).broadcasts
        ≡ s.broadcasts
          ++ approval_resolved (record {
            approval_id = approval_id;
            action_id = plan.action_id;
            decision = decision_str decision;
            source = source;
            correlation_id = some correlation_id;
          })
            ∷ aftermath plan correlation_id decision
  unfolding await_and_execute_demo_plan broadcast record_audit
  await_and_execute_demo_plan-broadcasts plan approval_id correlation_id decision source s h =
      rw (set_status_open plan DemoPlanStatus.waiting_approval h) (
        after_decision-broadcasts (record plan { status = DemoPlanStatus.waiting_approval })
          correlation_id decision source _ refl
        ∙ append_assoc s.broadcasts (_ ∷ []) (
            aftermath (record plan { status = DemoPlanStatus.waiting_approval }) correlation_id
              decision)
        ∙ ap
            (λ l.
              s.broadcasts
              ++ resolved_message approval_id plan.action_id decision source correlation_id ∷ l)
            (aftermath_open plan DemoPlanStatus.waiting_approval correlation_id decision))
