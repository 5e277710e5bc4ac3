-- ===== src/Audit.antt =====
-- core/src/audit/event.rs: the audit event, its fields, and the sanitizer in front of the store.
pub mod Correlation
pub mod Sanitized
pub mod Store
use smolit_assistant.Base.{
  ℕ, String, Bool, ◌==◌, Option, none, some, List, [], ◌∷◌, ◌>>=◌, any, is_empty, trim,
  to_ascii_lowercase, shorten, if◌then◌else◌,
}
use smolit_assistant.Kinds.{source_user, source_timeout, source_system}
use smolit_assistant.Plan
use smolit_assistant.Capabilities.{sanitize_capability_id}
use Correlation.{sanitize_correlation_id}

pub data AuditKind : Type 0 where
  ipc_command_received ipc_command_rejected action_planned approval_requested approval_resolved
        action_started action_completed action_cancelled action_failed :
      AuditKind

unfoldable pub audit_kind_str : AuditKind → String
audit_kind_str ipc_command_received = "ipc_command_received"
audit_kind_str ipc_command_rejected = "ipc_command_rejected"
audit_kind_str action_planned = "action_planned"
audit_kind_str approval_requested = "approval_requested"
audit_kind_str approval_resolved = "approval_resolved"
audit_kind_str action_started = "action_started"
audit_kind_str action_completed = "action_completed"
audit_kind_str action_cancelled = "action_cancelled"
audit_kind_str action_failed = "action_failed"

abbrev pub max_summary_chars : ℕ
max_summary_chars = 80

unfoldable pub sanitize_summary : Option String → Option String
unfolding trim shorten
sanitize_summary raw = do
  s ← raw
  if is_empty (trim s) then none else some (shorten max_summary_chars (trim s))

abbrev pub source_ui : String
source_ui = "ui"

abbrev pub source_core : String
source_core = "core"

abbrev pub known_sources : List String
known_sources = source_user ∷ source_timeout ∷ source_system ∷ source_ui ∷ source_core ∷ []

abbrev pub result_approved : String
result_approved = "approved"

abbrev pub result_denied : String
result_denied = "denied"

abbrev pub result_expired : String
result_expired = "expired"

abbrev pub result_completed : String
result_completed = "completed"

abbrev pub result_failed : String
result_failed = "failed"

abbrev pub result_cancelled : String
result_cancelled = "cancelled"

abbrev pub result_rejected : String
result_rejected = "rejected"

abbrev pub result_capability_guard_denied : String
result_capability_guard_denied = "capability_guard_denied"

abbrev pub known_results : List String
known_results =
    result_approved ∷ result_denied ∷ result_expired ∷ result_completed ∷ result_failed
    ∷ result_cancelled ∷ result_rejected ∷ result_capability_guard_denied ∷ []

unfoldable pub sanitize_source : Option String → Option String
unfolding trim to_ascii_lowercase
sanitize_source raw = do
  s ← raw
  let n = to_ascii_lowercase (trim s)
  if any (λ k. k == n) known_sources then some n else none

unfoldable pub sanitize_result : Option String → Option String
unfolding trim to_ascii_lowercase
sanitize_result raw = do
  s ← raw
  let n = to_ascii_lowercase (trim s)
  if any (λ k. k == n) known_results then some n else none

unfoldable pub sanitize_risk : Option String → Option String
sanitize_risk raw = do s ← raw; let n = Plan.sanitize_risk s; if is_empty n then none else some n

unfoldable pub non_empty : Option String → Option String
unfolding trim
non_empty raw = do s ← raw; if is_empty (trim s) then none else some (trim s)

pub record AuditEvent : Type 0 where
  pub audit_id : String
  pub timestamp_ms : ℕ
  pub kind : AuditKind
  pub action_id : Option String
  pub approval_id : Option String
  pub risk : Option String
  pub result : Option String
  pub source : Option String
  pub summary : Option String
  pub correlation_id : Option String
  pub capability_id : Option String

pub record AuditFields : Type 0 where
  pub action_id : Option String
  pub approval_id : Option String
  pub risk : Option String
  pub result : Option String
  pub source : Option String
  pub summary : Option String
  pub correlation_id : Option String
  pub capability_id : Option String

unfoldable pub no_fields : AuditFields
no_fields = record {
  action_id = none;
  approval_id = none;
  risk = none;
  result = none;
  source = none;
  summary = none;
  correlation_id = none;
  capability_id = none;
}

unfoldable pub with_action_id : String → AuditFields → AuditFields
with_action_id id f = record f { action_id = some id }

unfoldable pub with_approval_id : String → AuditFields → AuditFields
with_approval_id id f = record f { approval_id = some id }

unfoldable pub with_risk : String → AuditFields → AuditFields
with_risk risk f = record f { risk = some risk }

unfoldable pub with_result : String → AuditFields → AuditFields
with_result result f = record f { result = some result }

unfoldable pub with_source : String → AuditFields → AuditFields
with_source source f = record f { source = some source }

unfoldable pub with_summary : String → AuditFields → AuditFields
with_summary summary f = record f { summary = some summary }

unfoldable pub with_correlation_id : String → AuditFields → AuditFields
with_correlation_id id f = record f { correlation_id = some id }

unfoldable pub with_correlation_id_opt : Option String → AuditFields → AuditFields
with_correlation_id_opt id f = record f { correlation_id = id }

unfoldable pub with_capability_id : String → AuditFields → AuditFields
with_capability_id id f = record f { capability_id = some id }

unfoldable pub with_capability_id_opt : Option String → AuditFields → AuditFields
with_capability_id_opt id f = record f { capability_id = id }

unfoldable pub sanitized : AuditFields → AuditFields
unfolding non_empty sanitize_risk sanitize_result sanitize_source sanitize_summary
    sanitize_correlation_id sanitize_capability_id
sanitized f = record {
  action_id = non_empty f.action_id;
  approval_id = non_empty f.approval_id;
  risk = sanitize_risk f.risk;
  result = sanitize_result f.result;
  source = sanitize_source f.source;
  summary = sanitize_summary f.summary;
  correlation_id = sanitize_correlation_id f.correlation_id;
  capability_id = sanitize_capability_id f.capability_id;
}
