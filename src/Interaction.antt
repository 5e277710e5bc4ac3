-- ===== src/Interaction.antt =====
-- core/src/interaction/executor.rs: the policy and the executor. The backend
-- (core/src/interaction/backend.rs) is an interface over a desktop state `W`: each call may change that state.
pub mod Events
pub mod Selection
use smolit_assistant.Base.{
  String, Bool, true, false, not, ◌&&◌, Option, none, some, List, [], ◌∷◌, or_else, or_option,
  if◌then◌else◌,
}
use Prim.Native.String.{◌++◌}
use smolit_assistant.Kinds.{
  InteractionKind, open_application, focus_window, type_text, send_shortcut, noop, unknown,
  kind_str,
}
use smolit_assistant.Messages.{
  ActionTarget, application_target, window_target, ActionKind, ActionPhase, ActionStatus,
  OutgoingMessage, action_planned, action_started, action_step, action_verification,
  action_completed, action_failed,
}
use smolit_assistant.Action.{
  InteractionAction, InteractionError, InteractionPayload, RecoveryHint, VerificationConfidence,
  VerificationResult, abort, action_kind_disallowed, action_kind_of, ask_user, backend_failed,
  backend_unsupported, confirmation_required, error_text, failed, failed_result,
  fallback_unavailable, focus_window_action, focus_window_payload, hint_str, layer_disabled,
  noop_payload, open_application_action, open_application_payload, payload_kind, preconditions,
  retry, send_shortcut_payload, type_text_payload, uncertain, uncertain_result, verified,
  verified_result,
}

pub record InteractionPolicy : Type 0 where
  pub enabled : Bool
  pub allow_open_application : Bool
  pub allow_focus_window : Bool
  pub allow_type_text : Bool
  pub allow_shortcuts : Bool
  pub require_confirmation : Bool

-- The error, or `none` for `Ok(())`.
allow_list : InteractionPolicy → InteractionKind → Option InteractionError
allow_list p open_application =
    if not p.allow_open_application then some (action_kind_disallowed "open_application") else none
allow_list p focus_window =
    if not p.allow_focus_window then some (action_kind_disallowed "focus_window") else none
allow_list p type_text =
    if not p.allow_type_text then some (action_kind_disallowed "type_text") else none
allow_list p send_shortcut =
    if not p.allow_shortcuts then some (action_kind_disallowed "send_shortcut") else none
allow_list p noop = none
allow_list p unknown = none

unfoldable pub allows : InteractionPolicy → InteractionKind → Option InteractionError
unfolding allow_list
allows p kind = if not p.enabled then some layer_disabled else allow_list p kind

pub data Outcome : Type 0 where
  succeeded : VerificationResult → Outcome
  errored : InteractionError → Outcome

-- The operations of the backend trait: a call answers and leaves a desktop state.
pub record Backend (W : Type 0) : Type 0 where
  pub open_application : W → InteractionAction → String → W × Outcome
  pub focus_window : W → InteractionAction → Option String → Option String → W × Outcome
  pub type_text : W → InteractionAction → String → W × Outcome
  pub send_shortcut : W → InteractionAction → String → W × Outcome

unfoldable pub step_title_for_kind : InteractionKind → String
step_title_for_kind open_application = "Opening application"
step_title_for_kind focus_window = "Focusing window"
step_title_for_kind type_text = "Typing text"
step_title_for_kind send_shortcut = "Sending shortcut"
step_title_for_kind noop = "No-op"
step_title_for_kind unknown = "Unknown operation"

unfoldable pub recovery_hint_for : InteractionError → RecoveryHint
recovery_hint_for layer_disabled = fallback_unavailable
recovery_hint_for (action_kind_disallowed kind) = fallback_unavailable
recovery_hint_for (backend_unsupported kind) = fallback_unavailable
recovery_hint_for confirmation_required = ask_user
recovery_hint_for (preconditions msg) = abort
recovery_hint_for (backend_failed msg) = retry

unfoldable pub planned : InteractionAction → OutgoingMessage
unfolding action_kind_of kind_str
planned action = action_planned (record {
  action_id = action.action_id;
  action_kind = ActionKind.automation;
  title = action.title;
  description = some ("interaction:" ++ kind_str (action_kind_of action));
  target = action.target;
  mapping = none;
  correlation_id = action.correlation_id;
})

unfoldable pub started : String → Option String → OutgoingMessage
started action_id correlation_id =
    action_started (record {
      action_id = action_id;
      phase = ActionPhase.started;
      correlation_id = correlation_id;
    })

unfoldable pub step : String → String → Option String → OutgoingMessage
step action_id title correlation_id = action_step (record {
  action_id = action_id;
  title = title;
  description = none;
  correlation_id = correlation_id;
})

prefix_of : VerificationConfidence → String
prefix_of verified = "Verified"
prefix_of uncertain = "Best-effort"
prefix_of failed = "Verification failed"

unfoldable pub verification_event : String → VerificationResult → Option String → OutgoingMessage
unfolding prefix_of
verification_event action_id verification correlation_id = action_verification (record {
  action_id = action_id;
  title = prefix_of verification.confidence ++ (": " ++ verification.title);
  correlation_id = correlation_id;
})

completion_message : VerificationConfidence → Option String → Option String
completion_message verified message = message
completion_message uncertain message = some (or_else message "completed (verification uncertain)")
completion_message failed message = message

unfoldable pub completed : String → VerificationResult → Option String → OutgoingMessage
unfolding completion_message
completed action_id verification correlation_id = action_completed (record {
  action_id = action_id;
  status = ActionStatus.completed;
  message = completion_message verification.confidence verification.message;
  correlation_id = correlation_id;
})

unfoldable pub failed_event : String → String → RecoveryHint → Option String → OutgoingMessage
unfolding hint_str
failed_event action_id message hint correlation_id = action_failed (record {
  action_id = action_id;
  status = ActionStatus.failed;
  message = message;
  error = some ("recovery_hint=" ++ hint_str hint);
  correlation_id = correlation_id;
})

unfoldable pub refusal_events : String → InteractionError → Option String → List OutgoingMessage
unfolding recovery_hint_for error_text started failed_event
refusal_events action_id err correlation_id =
    started action_id correlation_id
    ∷ failed_event action_id (error_text err) (recovery_hint_for err) correlation_id
    ∷ []

-- The messages after the backend has answered.
unfoldable pub closing : InteractionAction → Outcome → List OutgoingMessage
unfolding verification_event completed recovery_hint_for error_text failed_event
closing action (succeeded verification) =
    verification_event action.action_id verification action.correlation_id
    ∷ completed action.action_id verification action.correlation_id
    ∷ []
closing action (errored err) =
    failed_event action.action_id (error_text err) (recovery_hint_for err) action.correlation_id
    ∷ []

unfoldable pub refused : InteractionAction → InteractionError → List OutgoingMessage
refused action err =
    planned action
    ∷ started action.action_id action.correlation_id
    ∷ failed_event action.action_id (error_text err) (recovery_hint_for err) action.correlation_id
    ∷ []

module _ {W : Type 0} (backend : Backend W) where
  -- The call of the backend that the payload asks for.
  unfoldable pub perform : W → InteractionAction → InteractionPayload → W × Outcome
  perform w action (open_application_payload name) = backend.open_application w action name
  perform w action (focus_window_payload title app) = backend.focus_window w action title app
  perform w action (type_text_payload text) = backend.type_text w action text
  perform w action (send_shortcut_payload combo) = backend.send_shortcut w action combo
  perform w action noop_payload = (w, succeeded (verified_result "No-op"))

  unfoldable pub run_approved : W → InteractionAction → W × List OutgoingMessage
  unfolding perform closing started step step_title_for_kind action_kind_of
  run_approved w action =
      let (w', outcome) = perform w action action.payload in
      (
        w',
        started action.action_id action.correlation_id
            ∷ step action.action_id "Resolving target" action.correlation_id
            ∷ step action.action_id (step_title_for_kind (action_kind_of action))
                action.correlation_id
            ∷ closing action outcome,
      )

  unfoldable pub execute : InteractionPolicy → W → InteractionAction → W × List OutgoingMessage
  unfolding perform closing refused
  execute policy w action =
      let (w', outcome) = perform w action action.payload in
      elim (allows policy (action_kind_of action)) [
        | some err ↦ (w, refused action err)
        | none ↦
            if action.requires_confirmation && policy.require_confirmation
            then (w, refused action confirmation_required)
            else (
              w',
              planned action
                  ∷ started action.action_id action.correlation_id
                  ∷ step action.action_id "Resolving target" action.correlation_id
                  ∷ step action.action_id (step_title_for_kind (action_kind_of action))
                      action.correlation_id
                  ∷ closing action outcome,
            )
      ]
