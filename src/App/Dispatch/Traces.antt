-- ===== src/App/Dispatch/Traces.antt =====
-- What the interaction path of core/src/app.rs broadcasts, and what it answers on a refusal.
use smolit_assistant.Base.{
  String, ◌≡◌, refl, sym, ap, ◌∙◌, some, List, [], ◌∷◌, ◌++◌, append_assoc, append-nil,
}
use smolit_assistant.Messages.{
  ActionStatus, ApprovalDecision, approved, denied, cancelled, timed_out, decision_str,
  OutgoingMessage, error, action_planned, action_started, action_step, action_verification,
  action_completed, action_failed, action_cancelled, approval_requested, approval_resolved,
  target_selected, target_cleared, audit_recent, pong, status, thinking, heard, response,
  speaking_started, speaking_ended, settings_probe_result,
}
use smolit_assistant.Interaction.{run_approved}
use smolit_assistant.Action.{InteractionAction}
use smolit_assistant.App.State.{Env, App, broadcast, record_audit}
use smolit_assistant.App.Dispatch.{
  run_now, broadcast_all, cancel_interaction, after_decision, await_and_continue,
}
use smolit_assistant.App.Lifecycle.{audit_message, record_interaction_lifecycle_audit}

-- What follows the resolution of an approval, seen from outside: the run if it was given, and otherwise one
-- cancellation that names the reason.
abbrev pub cancel_text : ApprovalDecision → String
cancel_text approved = ""
cancel_text denied = "Action denied by user"
cancel_text cancelled = "Action cancelled"
cancel_text timed_out = "Approval timed out"

module _ {W : Type 0} (env : Env W) where
  abbrev pub cancellation : InteractionAction → ApprovalDecision → OutgoingMessage
  cancellation action decision = action_cancelled (record {
    action_id = action.action_id;
    status = ActionStatus.cancelled;
    message = some (cancel_text decision);
    correlation_id = action.correlation_id;
  })

  abbrev pub aftermath : InteractionAction → ApprovalDecision → W → List OutgoingMessage
  aftermath action approved w = (run_approved env.backend w action).1
  aftermath action denied w = cancellation action denied ∷ []
  aftermath action cancelled w = cancellation action cancelled ∷ []
  aftermath action timed_out w = cancellation action timed_out ∷ []

  audit_message-broadcasts :
      (action : InteractionAction) (msg : OutgoingMessage) (s : App W)
      → (audit_message env action msg s).broadcasts ≡ s.broadcasts
  unfolding audit_message record_audit
  audit_message-broadcasts action (action_started p) s = refl
  audit_message-broadcasts action (action_completed p) s = refl
  audit_message-broadcasts action (action_failed p) s = refl
  audit_message-broadcasts action (action_cancelled p) s = refl
  audit_message-broadcasts action (error m) s = refl
  audit_message-broadcasts action (action_planned p) s = refl
  audit_message-broadcasts action (action_step p) s = refl
  audit_message-broadcasts action (action_verification p) s = refl
  audit_message-broadcasts action (approval_requested p) s = refl
  audit_message-broadcasts action (approval_resolved p) s = refl
  audit_message-broadcasts action (target_selected p) s = refl
  audit_message-broadcasts action (target_cleared p) s = refl
  audit_message-broadcasts action (audit_recent es) s = refl
  audit_message-broadcasts action pong s = refl
  audit_message-broadcasts action (status p) s = refl
  audit_message-broadcasts action thinking s = refl
  audit_message-broadcasts action (heard t) s = refl
  audit_message-broadcasts action (response t) s = refl
  audit_message-broadcasts action (speaking_started p) s = refl
  audit_message-broadcasts action (speaking_ended p) s = refl
  audit_message-broadcasts action (settings_probe_result p) s = refl

  lifecycle-broadcasts :
      (action : InteractionAction) (msgs : List OutgoingMessage) (s : App W)
      → (record_interaction_lifecycle_audit env action msgs s).broadcasts ≡ s.broadcasts
  unfolding record_interaction_lifecycle_audit
  lifecycle-broadcasts action [] s = refl
  lifecycle-broadcasts action (msg ∷ msgs) s =
      lifecycle-broadcasts action msgs (audit_message env action msg s)
      ∙ audit_message-broadcasts action msg s

  broadcast_all_lem :
      (msgs : List OutgoingMessage) (s : App W)
      → (broadcast_all env msgs s).broadcasts ≡ s.broadcasts ++ msgs
  unfolding broadcast_all broadcast
  broadcast_all_lem [] s = sym (append-nil s.broadcasts)
  broadcast_all_lem (msg ∷ msgs) s =
      broadcast_all_lem msgs (broadcast msg s) ∙ append_assoc s.broadcasts (msg ∷ []) msgs

  after_decision-broadcasts :
      (action : InteractionAction) (decision : ApprovalDecision) (source : String) (s : App W)
      → (after_decision env action decision source s).broadcasts
        ≡ s.broadcasts ++ aftermath action decision s.world
  unfolding after_decision run_now cancel_interaction broadcast record_audit
  after_decision-broadcasts action approved source s =
      broadcast_all_lem (run_approved env.backend s.world action).1 (run_now env action s).1
      ∙ ap (λ l. l ++ (run_approved env.backend s.world action).1)
          (lifecycle-broadcasts action (run_approved env.backend s.world action).1
            (record s { world = (run_approved env.backend s.world action).0 }))
  after_decision-broadcasts action denied source s = refl
  after_decision-broadcasts action cancelled source s = refl
  after_decision-broadcasts action timed_out source s = refl

  -- The continuation broadcasts the resolution of the approval first, and then either the messages of the
  -- one run, or one cancellation with the text of the decision: a denied, cancelled or expired action
  -- never reports a start.
  pub await_and_continue-broadcasts :
      (action : InteractionAction) (approval_id : String) (decision : ApprovalDecision)
      (source : String) (s : App W)
      → (await_and_continue env action approval_id decision source s).broadcasts
        ≡ s.broadcasts
          ++ approval_resolved (record {
            approval_id = approval_id;
            action_id = action.action_id;
            decision = decision_str decision;
            source = source;
            correlation_id = action.correlation_id;
          })
            ∷ aftermath action decision s.world
  unfolding await_and_continue broadcast record_audit
  await_and_continue-broadcasts action approval_id decision source s =
      after_decision-broadcasts action decision source _
      ∙ append_assoc s.broadcasts (_ ∷ []) (aftermath action decision s.world)
