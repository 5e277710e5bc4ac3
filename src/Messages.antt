-- ===== src/Messages.antt =====
-- The wire vocabulary of the action and approval flow: core/src/actions/{event,target,mapping}.rs,
-- core/src/approvals/{request,response}.rs, core/src/interaction/selection.rs (the record) and the
-- envelopes of core/src/ipc/protocol.rs that these flows emit.
pub mod Payloads
pub use smolit_assistant.Messages.Payloads.{
  StatusPayload, SettingsProbeResultPayload, SpeakingStartedPayload, SpeakingEndedPayload,
}
use smolit_assistant.Base.{ℕ, String, Option, none, List}
use smolit_assistant.Audit.{AuditEvent}
use smolit_assistant.Kinds.{InteractionKind}

pub data ActionSpace : Type 0 where
  logical_space window_space screen_space : ActionSpace

pub record ActionMapping : Type 0 where
  pub space : ActionSpace
  pub hint : String
  pub window : Option String

pub data ActionTarget : Type 0 where
  application : String → Option String → ActionTarget
  window : Option String → Option String → ActionTarget
  ui_element : String → Option String → Option String → ActionTarget
  region : Option String → Option String → ActionTarget
  unknown_target : ActionTarget

unfoldable pub application_target : String → ActionTarget
application_target name = application name none

unfoldable pub window_target : Option String → Option String → ActionTarget
window_target title app = window title app

pub data ActionKind : Type 0 where
  query speech ui system automation unknown_action : ActionKind

pub data ActionPhase : Type 0 where
  planned started in_progress verifying completed failed cancelled : ActionPhase

pub data ActionStatus : Type 0 where
  completed failed cancelled : ActionStatus

pub record ActionPlannedPayload : Type 0 where
  pub action_id : String
  pub action_kind : ActionKind
  pub title : String
  pub description : Option String
  pub target : ActionTarget
  pub mapping : Option ActionMapping
  pub correlation_id : Option String

pub record ActionStartedPayload : Type 0 where
  pub action_id : String
  pub phase : ActionPhase
  pub correlation_id : Option String

pub record ActionStepPayload : Type 0 where
  pub action_id : String
  pub title : String
  pub description : Option String
  pub correlation_id : Option String

pub record ActionVerificationPayload : Type 0 where
  pub action_id : String
  pub title : String
  pub correlation_id : Option String

pub record ActionCompletedPayload : Type 0 where
  pub action_id : String
  pub status : ActionStatus
  pub message : Option String
  pub correlation_id : Option String

pub record ActionFailedPayload : Type 0 where
  pub action_id : String
  pub status : ActionStatus
  pub message : String
  pub error : Option String
  pub correlation_id : Option String

pub record ActionCancelledPayload : Type 0 where
  pub action_id : String
  pub status : ActionStatus
  pub message : Option String
  pub correlation_id : Option String

pub record SelectedTarget : Type 0 where
  pub id : String
  pub name : String
  pub role : String
  pub source : String
  pub confidence : String
  pub matched_hint : Option String
  pub app_name : Option String

pub data ApprovalDecision : Type 0 where
  approved denied cancelled timed_out : ApprovalDecision

unfoldable pub decision_str : ApprovalDecision → String
decision_str approved = "approved"
decision_str denied = "denied"
decision_str cancelled = "cancelled"
decision_str timed_out = "timed_out"

pub data IncomingApprovalDecision : Type 0 where
  approved denied cancelled : IncomingApprovalDecision

unfoldable pub to_decision : IncomingApprovalDecision → ApprovalDecision
to_decision IncomingApprovalDecision.approved = ApprovalDecision.approved
to_decision IncomingApprovalDecision.denied = ApprovalDecision.denied
to_decision IncomingApprovalDecision.cancelled = ApprovalDecision.cancelled

pub record ApprovalRequest : Type 0 where
  pub approval_id : String
  pub action_id : String
  pub action_kind : InteractionKind
  pub title : String
  pub message : String
  pub target : ActionTarget
  pub reason : Option String
  pub timeout_seconds : ℕ
  pub selected_target : Option SelectedTarget
  pub risk : String
  pub correlation_id : Option String
  pub capability_id : Option String

pub record ApprovalResolvedPayload : Type 0 where
  pub approval_id : String
  pub action_id : String
  pub decision : String
  pub source : String
  pub correlation_id : Option String

-- The envelopes that the action, approval, selection and audit requests emit; those of status,
-- settings, accessibility, progress, speech and plain responses are left out.
pub data OutgoingMessage : Type 0 where
  error : String → OutgoingMessage
  action_planned : ActionPlannedPayload → OutgoingMessage
  action_started : ActionStartedPayload → OutgoingMessage
  action_step : ActionStepPayload → OutgoingMessage
  action_verification : ActionVerificationPayload → OutgoingMessage
  action_completed : ActionCompletedPayload → OutgoingMessage
  action_failed : ActionFailedPayload → OutgoingMessage
  action_cancelled : ActionCancelledPayload → OutgoingMessage
  approval_requested : ApprovalRequest → OutgoingMessage
  approval_resolved : ApprovalResolvedPayload → OutgoingMessage
  target_selected : SelectedTarget → OutgoingMessage
  target_cleared : Option SelectedTarget → OutgoingMessage
  audit_recent : List AuditEvent → OutgoingMessage
  pong : OutgoingMessage
  status : StatusPayload → OutgoingMessage
  thinking : OutgoingMessage
  heard : String → OutgoingMessage
  response : String → OutgoingMessage
  speaking_started : SpeakingStartedPayload → OutgoingMessage
  speaking_ended : SpeakingEndedPayload → OutgoingMessage
  settings_probe_result : SettingsProbeResultPayload → OutgoingMessage
