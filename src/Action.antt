-- ===== src/Action.antt =====
-- core/src/interaction/{types,recovery,verifier,action}.rs: errors, hints, verification results, and the
-- actions with their factories.
use smolit_assistant.Base.{String, Bool, false, Option, none, some, or_else, or_option}
use Prim.Native.String.{◌++◌}
use smolit_assistant.Kinds.{
  InteractionKind, open_application, focus_window, type_text, send_shortcut, noop,
}
use smolit_assistant.Messages.{ActionTarget, application_target, window_target}

pub data InteractionError : Type 0 where
  layer_disabled : InteractionError
  action_kind_disallowed : String → InteractionError
  backend_unsupported : String → InteractionError
  confirmation_required : InteractionError
  preconditions : String → InteractionError
  backend_failed : String → InteractionError

unfoldable pub error_text : InteractionError → String
error_text layer_disabled = "interaction layer is disabled"
error_text (action_kind_disallowed kind) =
    "interaction kind `" ++ (kind ++ "` is disallowed by configuration")
error_text (backend_unsupported kind) =
    "interaction kind `" ++ (kind ++ "` is not supported by the active backend")
error_text confirmation_required =
    "action requires user confirmation, but no confirmation channel is wired up yet"
error_text (preconditions msg) = "preconditions not met: " ++ msg
error_text (backend_failed msg) = "backend failed: " ++ msg

pub data RecoveryHint : Type 0 where
  retry abort ask_user fallback_unavailable : RecoveryHint

unfoldable pub hint_str : RecoveryHint → String
hint_str retry = "retry"
hint_str abort = "abort"
hint_str ask_user = "ask_user"
hint_str fallback_unavailable = "fallback_unavailable"

pub data VerificationConfidence : Type 0 where
  verified uncertain failed : VerificationConfidence

pub record VerificationResult : Type 0 where
  pub confidence : VerificationConfidence
  pub title : String
  pub message : Option String

unfoldable pub verified_result : String → VerificationResult
verified_result title = record { confidence = verified; title = title; message = none }

unfoldable pub uncertain_result : String → String → VerificationResult
uncertain_result title message = record {
  confidence = uncertain;
  title = title;
  message = some message;
}

unfoldable pub failed_result : String → String → VerificationResult
failed_result title message = record { confidence = failed; title = title; message = some message }

pub data InteractionPayload : Type 0 where
  open_application_payload : String → InteractionPayload
  focus_window_payload : Option String → Option String → InteractionPayload
  type_text_payload : String → InteractionPayload
  send_shortcut_payload : String → InteractionPayload
  noop_payload : InteractionPayload

unfoldable pub payload_kind : InteractionPayload → InteractionKind
payload_kind (open_application_payload name) = open_application
payload_kind (focus_window_payload title app) = focus_window
payload_kind (type_text_payload text) = type_text
payload_kind (send_shortcut_payload combo) = send_shortcut
payload_kind noop_payload = noop

pub record InteractionAction : Type 0 where
  pub action_id : String
  pub title : String
  pub target : ActionTarget
  pub payload : InteractionPayload
  pub requires_confirmation : Bool
  pub trusted_only : Bool
  pub correlation_id : Option String

unfoldable pub action_kind_of : InteractionAction → InteractionKind
unfolding payload_kind
action_kind_of action = payload_kind action.payload

unfoldable pub open_application_action : String → String → InteractionAction
unfolding application_target
open_application_action action_id name = record {
  action_id = action_id;
  title = "Open " ++ name;
  target = application_target name;
  payload = open_application_payload name;
  requires_confirmation = false;
  trusted_only = false;
  correlation_id = none;
}

unfoldable pub focus_window_action : String → Option String → Option String → InteractionAction
unfolding window_target
focus_window_action action_id title app = record {
  action_id = action_id;
  title = "Focus " ++ or_else (or_option title app) "window";
  target = window_target title app;
  payload = focus_window_payload title app;
  requires_confirmation = false;
  trusted_only = false;
  correlation_id = none;
}
