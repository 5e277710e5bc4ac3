-- ===== src/App/Dispatch/Answered.antt =====
-- From a request of core/src/app.rs for an approval to its answer.
use smolit_assistant.Base.{
  ℕ, String, true, false, ◌&&◌, ◌≡◌, refl, ap, Option, none, some, length, get_elem?,
  get_elem?-append_end, trim, arith,
}
use smolit_assistant.Kinds.{source_user, open_application}
use smolit_assistant.Capabilities.{is_known_capability_id, is_executable_today}
use smolit_assistant.Guard.{guard_interaction_kind, allow}
use smolit_assistant.Messages.{ApprovalDecision}
use smolit_assistant.Interaction.{allows}
use smolit_assistant.Action.{InteractionAction, action_kind_of, open_application_action}
use smolit_assistant.Approvals
use smolit_assistant.Approvals.{Registry, sent}
use smolit_assistant.Approvals.Delivery.{IsSound, register-resolve}
use smolit_assistant.App.State.{
  Env, App, awaits, interaction, next_action_id, next_approval_id, register_approval, spawn,
  record_audit, generate_correlation_id,
}
use smolit_assistant.App.Dispatch.{
  request_approval, await_and_continue, dispatch_interaction, pass_gates, correlate, announce,
  execute_open_application,
}
use smolit_assistant.App.Targets.{resolve_approval, resolution_error}
use smolit_assistant.App.Tasks.{finish, resume, await_decision, without_task, continue}

open_allowed : guard_interaction_kind open_application ≡ allow
unfolding guard_interaction_kind trim is_known_capability_id is_executable_today
open_allowed = refl

module _ {W : Type 0} (env : Env W) where
  -- The state after a request and the answer to it.
  abbrev answered : InteractionAction → String → ApprovalDecision → App W → Option String × App W
  answered action correlation_id d s =
      resolve_approval (next_approval_id s).0 d (request_approval env action correlation_id s).1

  -- The task at place `i` waits on channel `c`, which holds the decision: it continues with it.
  finish_sent :
      (i : ℕ) (id : String) (c : ℕ) (action : InteractionAction) (d : ApprovalDecision) (s : App W)
      → get_elem? s.tasks i ≡ some (awaits id c false (interaction action))
      → get_elem? s.pending_approvals.channels c ≡ some (sent d)
      → finish env i s ≡ await_and_continue env action id d source_user (without_task i s)
  unfolding finish resume await_decision continue
  finish_sent i id c action d s at ch = rw (at, finish) (rw (ch, resume, await_decision) refl)

  request-answer :
      (action : InteractionAction) (correlation_id : String) (d : ApprovalDecision) (s : App W)
      → IsSound s.pending_approvals
      → let (refusal, s') = answered action correlation_id d s in
        (refusal ≡ none)
        × (s'.world ≡ s.world)
        × (finish env (length s.tasks) s'
            ≡ await_and_continue env action
                (next_approval_id s).0
                d
                source_user
                (without_task (length s.tasks) s'))
  unfolding request_approval resolve_approval next_approval_id register_approval record_audit spawn
  request-answer action correlation_id d s sound =
      let id = (next_approval_id s).0 in
      let (taken, delivered) = register-resolve id d s.pending_approvals sound in
      (
        ap (resolution_error id) taken,
        refl,
        finish_sent (length s.tasks) id (Approvals.register id s.pending_approvals).0 action d _
            (get_elem?-append_end s.tasks _) delivered,
      )

  -- The action behind a request to open an application.
  abbrev pub opened : String → App W → InteractionAction
  opened name s = record (open_application_action (next_action_id s).0 name) {
    requires_confirmation = true;
    correlation_id = some (generate_correlation_id env (next_action_id s).1).0;
  }

  allowed :
      (s : App W)
      → s.policy.enabled ≡ true
      → s.policy.allow_open_application ≡ true
      → allows s.policy open_application ≡ none
  unfolding allows
  allowed s e a = ground arith

  pass_gates_request :
      (action : InteractionAction) (correlation_id : String) (s : App W)
      → guard_interaction_kind (action_kind_of action) ≡ allow
      → allows s.policy (action_kind_of action) ≡ none
      → (action.requires_confirmation && s.policy.require_confirmation) ≡ true
      → pass_gates env action correlation_id s ≡ request_approval env action correlation_id s
  unfolding pass_gates
  pass_gates_request action correlation_id s guard free due =
      rw (guard, pass_gates) (rw free (rw due refl))

  open_application_requests :
      (name : String) (s : App W)
      → s.policy.enabled ≡ true
      → s.policy.allow_open_application ≡ true
      → s.policy.require_confirmation ≡ true
      → let action = opened name s in
        let id = (generate_correlation_id env (next_action_id s).1).0 in
        let s1 = announce env action id (generate_correlation_id env (next_action_id s).1).1 in
        (execute_open_application env name s).1 ≡ (request_approval env action id s1).1
  unfolding execute_open_application dispatch_interaction correlate announce open_application_action
      generate_correlation_id next_action_id record_audit
  open_application_requests name s e a strict =
      ap (λ p. p.1)
        (pass_gates_request (opened name s) (generate_correlation_id env (next_action_id s).1).0 _
          open_allowed (allowed s e a) strict)

  -- A client asks to open an application that the policy admits. The answer that a client gives under
  -- the identifier of the approval is accepted, the desktop is untouched until then, and the new
  -- task continues with exactly that decision, as one of the user.
  pub open_application-answer :
      (name : String) (d : ApprovalDecision) (s : App W)
      → IsSound s.pending_approvals
      → s.policy.enabled ≡ true
      → s.policy.allow_open_application ≡ true
      → s.policy.require_confirmation ≡ true
      → let id = (next_approval_id s).0 in
        let (refusal, s') = resolve_approval id d (execute_open_application env name s).1 in
        (refusal ≡ none)
        × (s'.world ≡ s.world)
        × (finish env (length s.tasks) s'
            ≡ await_and_continue env
                (opened name s)
                id
                d
                source_user
                (without_task (length s.tasks) s'))
  unfolding announce record_audit generate_correlation_id next_action_id next_approval_id
  open_application-answer name d s sound e a strict =
      rw (open_application_requests name s e a strict) (request-answer (opened name s) _ d _ sound)
