-- ===== src/Ipc/Gated.antt =====
-- The handlers of core/src/ipc/server.rs, approvals and the desktop.
use smolit_assistant.Base.{
  String, true, false, ◌≡◌, ◌≢◌, refl, ◌∙◌, Option, none, some, ◌⊎◌, inl, inr, or_else,
}
use smolit_assistant.Messages.{ApprovalDecision, approved, IncomingApprovalDecision, to_decision}
use smolit_assistant.Approvals.Calls.{resolves}
use smolit_assistant.Approvals.Sound.{call-IsSound}
use smolit_assistant.Approvals.Unapproved.{resolve-Unapproved}
use smolit_assistant.App.State.{Env, App}
use smolit_assistant.App.Quiet.{IsSafe, Quiet, ◌⨾◌, still, record_audit-Quiet}
use smolit_assistant.App.Planner.Harmless.{request_approval_demo-Quiet, plan_demo_action-Quiet}
use smolit_assistant.App.Targets.{resolve_approval}
use smolit_assistant.App.Dispatch.Gated.{
  select_target-Quiet, clear_target-Quiet, execute_open_application-Quiet,
  execute_focus_window-Quiet,
}
use smolit_assistant.Ipc.{
  IncomingMessage, interaction_open_application, interaction_focus_window,
  interaction_select_target, interaction_clear_target, approval_response, approval_approve,
  approval_deny, request_approval_demo_message, plan_demo_action_message, audit_recent_message,
  handle, handle_approval_response, handle_audit_recent, report_resolution, text_or_default,
}

-- All of `Quiet` but that an approval may appear.
pub record Tame {W : Type 0} (s t : App W) : Type 0 where
  pub safe : IsSafe s → IsSafe t
  pub world : t.world ≡ s.world
  pub policy : t.policy ≡ s.policy

pub Quiet-Tame : {W : Type 0} {s t : App W} → Quiet s t → Tame s t
Quiet-Tame q = record { safe = q.safe; world = q.world; policy = q.policy }

-- The request carries an approval.
unfoldable pub Approves : IncomingMessage → Type 0
Approves (approval_response id IncomingApprovalDecision.approved) = Unit
Approves (approval_approve id) = Unit
Approves _ = ⊥

module _ {W : Type 0} (env : Env W) where
  report-Quiet :
      (id : String) (o : Option String) (s : App W) → Quiet s (report_resolution env id o s).1
  unfolding report_resolution
  report-Quiet id none s = still s
  report-Quiet id (some message) s = record_audit-Quiet env _ _ s

  resolve-Tame :
      (id : String) (d : ApprovalDecision) (s : App W) → Tame s (resolve_approval id d s).1
  unfolding resolve_approval
  resolve-Tame id d s = record {
    safe = λ h. record {
      ring = h.ring;
      sound = call-IsSound (resolves id d) s.pending_approvals h.sound;
      clean = h.clean;
    };
    world = refl;
    policy = refl;
  }

  resolve-Quiet :
      (id : String) (d : ApprovalDecision) (s : App W)
      → d ≢ approved
      → Quiet s (resolve_approval id d s).1
  unfolding resolve_approval
  resolve-Quiet id d s other = record {
    safe = (resolve-Tame id d s).safe;
    world = refl;
    policy = refl;
    unapproved = resolve-Unapproved id d s.pending_approvals other;
  }

  response-Tame :
      (id : String) (d : IncomingApprovalDecision) (s : App W)
      → Tame s (handle_approval_response env id d s).1
  unfolding handle_approval_response
  response-Tame id d s =
      let p = resolve-Tame id (to_decision d) s in
      let (refusal, s1) = resolve_approval id (to_decision d) s in
      let q = report-Quiet id refusal s1 in
      record {
        safe = λ h. q.safe (p.safe h);
        world = q.world ∙ p.world;
        policy = q.policy ∙ p.policy;
      }

  response-Quiet :
      (id : String) (d : IncomingApprovalDecision) (s : App W)
      → to_decision d ≢ approved
      → Quiet s (handle_approval_response env id d s).1
  unfolding handle_approval_response
  response-Quiet id d s other = resolve-Quiet id (to_decision d) s other ⨾ report-Quiet id _ _

  -- Either the request is quiet, or it is one that approves.
  pub handle-Quiet :
      (m : IncomingMessage) (s : App W)
      → s.policy.require_confirmation ≡ true
      → Quiet s (handle env m s).1 ⊎ (Approves m × Tame s (handle env m s).1)
  unfolding handle Approves handle_audit_recent to_decision
  handle-Quiet (interaction_open_application application) s strict =
      inl (execute_open_application-Quiet env application s strict)
  handle-Quiet (interaction_focus_window target) s strict =
      inl (execute_focus_window-Quiet env target s strict)
  handle-Quiet (interaction_select_target target) s strict = inl (select_target-Quiet target s)
  handle-Quiet interaction_clear_target s strict = inl (clear_target-Quiet s)
  handle-Quiet (approval_response id IncomingApprovalDecision.approved) s strict =
      inr (tt, response-Tame id IncomingApprovalDecision.approved s)
  handle-Quiet (approval_response id IncomingApprovalDecision.denied) s strict =
      inl (response-Quiet id IncomingApprovalDecision.denied s (λ e. cc))
  handle-Quiet (approval_response id IncomingApprovalDecision.cancelled) s strict =
      inl (response-Quiet id IncomingApprovalDecision.cancelled s (λ e. cc))
  handle-Quiet (approval_approve id) s strict =
      inr (tt, response-Tame id IncomingApprovalDecision.approved s)
  handle-Quiet (approval_deny id) s strict =
      inl (response-Quiet id IncomingApprovalDecision.denied s (λ e. cc))
  handle-Quiet (request_approval_demo_message title summary risk) s strict = inl (
      request_approval_demo-Quiet env (text_or_default title) (text_or_default summary)
        (text_or_default risk) s)
  handle-Quiet (plan_demo_action_message title summary risk kind requires_approval) s strict = inl (
      plan_demo_action-Quiet env (text_or_default title) (text_or_default summary)
        (text_or_default kind) (text_or_default risk) (or_else requires_approval false) s)
  handle-Quiet (audit_recent_message limit) s strict = inl (still s)
