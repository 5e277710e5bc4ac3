-- ===== src/App/Dispatch/Gated.antt =====
-- The interaction path of core/src/app.rs, its gates and the desktop.
use smolit_assistant.Base.{
  String, true, ◌&&◌, ◌≡◌, refl, ap, ◌∙◌, Option, none, some, List, [], ◌∷◌, inl, inr, Option-cases,
  or_else,
}
use smolit_assistant.Guard.{guard_interaction_kind}
use smolit_assistant.Messages.{
  SelectedTarget, OutgoingMessage, error, action_planned, action_started, action_step,
  action_verification, action_completed, action_failed, action_cancelled, approval_requested,
  approval_resolved, target_selected, target_cleared, audit_recent, pong, status, thinking, heard,
  response, speaking_started, speaking_ended, settings_probe_result,
}
use smolit_assistant.Interaction.{allows}
use smolit_assistant.Action.{
  InteractionAction, action_kind_of, open_application_action, focus_window_action,
}
use smolit_assistant.Interaction.Selection.{
  Normalized, ok, err, normalize_with_fallback_id, normalize-IsClean,
}
use smolit_assistant.App.State.{Env, App, next_action_id, next_selection_id}
use smolit_assistant.App.Dispatch.{
  emit_capability_guard_denied, request_approval, refuse_by_policy, pass_gates, correlate, announce,
  dispatch_interaction, broadcast_all, execute_open_application, execute_focus_window,
}
use smolit_assistant.App.Lifecycle.{audit_message, record_interaction_lifecycle_audit}
use smolit_assistant.App.Targets.{
  store_selection, select_target, clear_target, InteractionFocusTarget, focus_arguments,
}
use smolit_assistant.App.Quiet.{
  Quiet, ◌⨾◌, still, decision-cases, next_action_id-Quiet, next_approval_id-Quiet,
  next_selection_id-Quiet, broadcast-Quiet, spawn-Quiet, register_approval-Quiet,
  generate_correlation_id-Quiet, record_audit-Quiet,
}

module _ {W : Type 0} where
  store_selection-Quiet :
      (target : SelectedTarget) (fallback_id : String) (n : Normalized)
      → normalize_with_fallback_id target fallback_id ≡ n
      → (s : App W) → Quiet s (store_selection n s).1
  unfolding store_selection
  store_selection-Quiet target fallback_id (err e) h s = still s
  store_selection-Quiet target fallback_id (ok u) h s = record {
    safe = λ q. record {
      ring = q.ring;
      sound = q.sound;
      clean = λ t same.
          (normalize-IsClean target t fallback_id (h ∙ ap (λ o. ok (or_else o u)) same)).0;
    };
    world = refl;
    policy = refl;
    unapproved = λ u. u;
  }

  pub select_target-Quiet :
      (target : SelectedTarget) (s : App W) → Quiet s (select_target target s).1
  unfolding select_target
  select_target-Quiet target s =
      next_selection_id-Quiet s ⨾ store_selection-Quiet target (next_selection_id s).0 _ refl _

  pub clear_target-Quiet : (s : App W) → Quiet s (clear_target s).1
  unfolding clear_target
  clear_target-Quiet s = record {
    safe = λ q. record { ring = q.ring; sound = q.sound; clean = λ t same. cc };
    world = refl;
    policy = refl;
    unapproved = λ u. u;
  }

module _ {W : Type 0} (env : Env W) where
  audit_message-Quiet :
      (action : InteractionAction) (msg : OutgoingMessage) (s : App W)
      → Quiet s (audit_message env action msg s)
  unfolding audit_message
  audit_message-Quiet action (action_started p) s = record_audit-Quiet env _ _ s
  audit_message-Quiet action (action_completed p) s = record_audit-Quiet env _ _ s
  audit_message-Quiet action (action_failed p) s = record_audit-Quiet env _ _ s
  audit_message-Quiet action (action_cancelled p) s = record_audit-Quiet env _ _ s
  audit_message-Quiet action (error m) s = still s
  audit_message-Quiet action (action_planned p) s = still s
  audit_message-Quiet action (action_step p) s = still s
  audit_message-Quiet action (action_verification p) s = still s
  audit_message-Quiet action (approval_requested p) s = still s
  audit_message-Quiet action (approval_resolved p) s = still s
  audit_message-Quiet action (target_selected p) s = still s
  audit_message-Quiet action (target_cleared p) s = still s
  audit_message-Quiet action (audit_recent es) s = still s
  audit_message-Quiet action pong s = still s
  audit_message-Quiet action (status p) s = still s
  audit_message-Quiet action thinking s = still s
  audit_message-Quiet action (heard t) s = still s
  audit_message-Quiet action (response t) s = still s
  audit_message-Quiet action (speaking_started p) s = still s
  audit_message-Quiet action (speaking_ended p) s = still s
  audit_message-Quiet action (settings_probe_result p) s = still s

  pub lifecycle-Quiet :
      (action : InteractionAction) (msgs : List OutgoingMessage) (s : App W)
      → Quiet s (record_interaction_lifecycle_audit env action msgs s)
  unfolding record_interaction_lifecycle_audit
  lifecycle-Quiet action [] s = still s
  lifecycle-Quiet action (msg ∷ msgs) s =
      audit_message-Quiet action msg s ⨾ lifecycle-Quiet action msgs _

  pub broadcast_all-Quiet :
      (msgs : List OutgoingMessage) (s : App W) → Quiet s (broadcast_all env msgs s)
  unfolding broadcast_all
  broadcast_all-Quiet [] s = still s
  broadcast_all-Quiet (msg ∷ msgs) s = broadcast-Quiet msg s ⨾ broadcast_all-Quiet msgs _

  request_approval-Quiet :
      (action : InteractionAction) (correlation_id : String) (s : App W)
      → Quiet s (request_approval env action correlation_id s).1
  unfolding request_approval
  request_approval-Quiet action correlation_id s =
      next_approval_id-Quiet s
      ⨾ register_approval-Quiet _ _
      ⨾ record_audit-Quiet env _ _ _
      ⨾ spawn-Quiet _ _

  announce-Quiet :
      (action : InteractionAction) (correlation_id : String) (s : App W)
      → Quiet s (announce env action correlation_id s)
  unfolding announce
  announce-Quiet action correlation_id s =
      record_audit-Quiet env _ _ s ⨾ record_audit-Quiet env _ _ _

  correlate-Quiet : (o : Option String) (s : App W) → Quiet s (correlate env o s).1
  unfolding correlate
  correlate-Quiet (some id) s = still s
  correlate-Quiet none s = generate_correlation_id-Quiet env s

  pass_gates-Quiet :
      (action : InteractionAction) (correlation_id : String) (s : App W)
      → (action.requires_confirmation && s.policy.require_confirmation) ≡ true
      → Quiet s (pass_gates env action correlation_id s).1
  unfolding pass_gates emit_capability_guard_denied refuse_by_policy
  pass_gates-Quiet action correlation_id s due =
      elim (decision-cases (guard_interaction_kind (action_kind_of action))) [
        | inr (reason, hint, e) ↦ rw (e, pass_gates) (record_audit-Quiet env _ _ s)
        | inl e ↦ elim (Option-cases (allows s.policy (action_kind_of action))) [
          | inr (refusal, f) ↦ rw (e, pass_gates) (rw f (record_audit-Quiet env _ _ s))
          | inl f ↦
              rw (e, pass_gates) (rw f (rw due (request_approval-Quiet action correlation_id s)))
        ]
      ]

  -- A dispatched action that asks for confirmation, under a policy that requires it, leaves the desktop
  -- and the policy as they were and the state safe: whatever guard and policy say, nothing runs before an approval.
  pub dispatch_interaction-Quiet :
      (action : InteractionAction) (s : App W)
      → (action.requires_confirmation && s.policy.require_confirmation) ≡ true
      → Quiet s (dispatch_interaction env action s).1
  unfolding dispatch_interaction
  dispatch_interaction-Quiet action s due =
      let id = (correlate env action.correlation_id s).0 in
      let stamped = record action { correlation_id = some id } in
      let start = correlate-Quiet action.correlation_id s ⨾ announce-Quiet stamped id _ in
      start
      ⨾ pass_gates-Quiet stamped id _
          (ap (λ p. action.requires_confirmation && p.require_confirmation) start.policy ∙ due)

  pub execute_open_application-Quiet :
      (name : String) (s : App W)
      → s.policy.require_confirmation ≡ true
      → Quiet s (execute_open_application env name s).1
  unfolding execute_open_application next_action_id
  execute_open_application-Quiet name s strict =
      next_action_id-Quiet s
      ⨾ dispatch_interaction-Quiet
          (record (open_application_action (next_action_id s).0 name) {
            requires_confirmation = true;
          })
          _ strict

  pub execute_focus_window-Quiet :
      (target : InteractionFocusTarget) (s : App W)
      → s.policy.require_confirmation ≡ true
      → Quiet s (execute_focus_window env target s).1
  unfolding execute_focus_window next_action_id
  execute_focus_window-Quiet target s strict =
      let (title, app) = focus_arguments target in
      next_action_id-Quiet s
      ⨾ dispatch_interaction-Quiet
          (record (focus_window_action (next_action_id s).0 title app) {
            requires_confirmation = true;
          })
          _ strict
