-- ===== src/App/DemoApproval.antt =====
-- The demo approvals of core/src/app.rs: an approval that nothing follows. The wait itself is in App/Tasks.
use smolit_assistant.Base.{String, Bool, none, some, List, [], ◌∷◌, is_empty, trim, if◌then◌else◌}
use smolit_assistant.Kinds.{open_application}
use smolit_assistant.Capabilities.{assistant_plan_demo_action}
use smolit_assistant.Guard.{allow, deny, guard_capability, for_capability}
use smolit_assistant.Plan.{sanitize_risk}
use smolit_assistant.Messages.{
  unknown_target, ApprovalDecision, OutgoingMessage, error, approval_requested,
}
use smolit_assistant.App.State.{
  Env, App, demo_only, awaits, next_approval_id, broadcast, register_approval, spawn,
  generate_correlation_id,
}
use smolit_assistant.App.Planner.{guard_denied_text, resolved_message}

module _ {W : Type 0} (env : Env W) where
  -- The part behind the guard.
  unfoldable pub issue_demo_approval :
      String → String → String → App W → List OutgoingMessage × App W
  unfolding next_approval_id generate_correlation_id register_approval spawn sanitize_risk
  issue_demo_approval title summary risk s =
      let (approval_id, s1) = next_approval_id s in
      let (correlation_id, s2) = generate_correlation_id env s1 in
      let (c, s3) = register_approval approval_id s2 in
      (
        approval_requested (record {
          approval_id = approval_id;
          action_id = "";
          action_kind = open_application;
          title = if is_empty (trim title) then "Demo approval" else title;
          message =
              if is_empty (trim summary)
              then "This is a harmless demo approval. No action runs after the decision."
              else summary;
          target = unknown_target;
          reason = some "demo";
          timeout_seconds = s.timeout_seconds;
          selected_target = none;
          risk = sanitize_risk risk;
          correlation_id = some correlation_id;
          capability_id = some assistant_plan_demo_action;
        })
            ∷ [],
        spawn (awaits approval_id c Bool.false (demo_only correlation_id)) s3,
      )

  unfoldable pub request_approval_demo :
      String → String → String → App W → List OutgoingMessage × App W
  unfolding guard_capability for_capability issue_demo_approval
  request_approval_demo title summary risk s =
      elim (guard_capability (for_capability assistant_plan_demo_action)) [
        | deny reason hint ↦ (error (guard_denied_text reason) ∷ [], s)
        | allow ↦ issue_demo_approval title summary risk s
      ]

  unfoldable pub await_and_resolve_demo :
      String → String → ApprovalDecision → String → App W → App W
  unfolding broadcast
  await_and_resolve_demo approval_id correlation_id decision source s =
      broadcast (resolved_message approval_id "" decision source correlation_id) s
