-- ===== src/Plan.antt =====
-- core/src/actions/plan.rs and the risk sanitizer of core/src/approvals/request.rs: the demo plan,
-- its sanitized fields and its status machine.
pub mod Fields
pub mod Status
use smolit_assistant.Base.{
  ℕ, String, Bool, true, false, ◌||◌, ◌==◌, any, is_empty, trim, to_ascii_lowercase, shorten,
  if◌then◌else◌,
}
use Prim.Native.String.{◌++◌}
use smolit_assistant.Kinds.{
  known_demo_kinds, default_demo_kind, demo_kind_echo, demo_kind_wait, known_risks, risk_medium,
}

unfoldable pub sanitize_risk : String → String
unfolding trim to_ascii_lowercase
sanitize_risk raw =
    let normalized = to_ascii_lowercase (trim raw) in
    if any (λ k. k == normalized) known_risks then normalized else risk_medium

unfoldable pub sanitize_kind : String → String
unfolding trim to_ascii_lowercase
sanitize_kind raw =
    let normalized = to_ascii_lowercase (trim raw) in
    if any (λ k. k == normalized) known_demo_kinds then normalized else default_demo_kind

pub data DemoPlanStatus : Type 0 where
  planned waiting_approval approved running completed failed denied expired : DemoPlanStatus

pub DemoPlanStatus-discrete : Discrete DemoPlanStatus
DemoPlanStatus-discrete = hlevel

unfoldable pub status_str : DemoPlanStatus → String
status_str planned = "planned"
status_str waiting_approval = "waiting_approval"
status_str approved = "approved"
status_str running = "running"
status_str completed = "completed"
status_str failed = "failed"
status_str denied = "denied"
status_str expired = "expired"

unfoldable pub is_terminal : DemoPlanStatus → Bool
is_terminal completed = true
is_terminal failed = true
is_terminal denied = true
is_terminal expired = true
is_terminal _ = false

pub record DemoPlan : Type 0 where
  pub action_id : String
  pub title : String
  pub summary : String
  pub kind : String
  pub risk : String
  pub requires_approval : Bool
  pub status : DemoPlanStatus

abbrev pub max_title_chars : ℕ
max_title_chars = 80

abbrev pub max_summary_chars : ℕ
max_summary_chars = 140

unfoldable pub trim_to : String → ℕ → String
unfolding trim shorten
trim_to raw limit = shorten limit (trim raw)

abbrev pub default_title : String
default_title = "Demo action"

abbrev pub default_summary : String
default_summary = "Harmless demo action — no system effect."

-- A default for an empty text.
abbrev pub or_default : String → String → String
or_default s d = if is_empty s then d else s

unfoldable pub new : String → String → String → String → String → Bool → DemoPlan
unfolding trim_to sanitize_kind sanitize_risk
new action_id title summary kind risk requires_approval =
    let risk_norm = sanitize_risk risk in
    record {
      action_id = action_id;
      title = or_default (trim_to title max_title_chars) default_title;
      summary = or_default (trim_to summary max_summary_chars) default_summary;
      kind = sanitize_kind kind;
      risk = if is_empty (trim risk_norm) then risk_medium else risk_norm;
      requires_approval = requires_approval;
      status = planned;
    }

-- The plan with the new status, and whether it changed.
unfoldable pub set_status : DemoPlan → DemoPlanStatus → DemoPlan × Bool
unfolding is_terminal
set_status plan next = elim (DemoPlanStatus-discrete plan.status next) [
  | yes same ↦ (plan, false)
  | no other ↦
      if is_terminal plan.status then (plan, false) else (record plan { status = next }, true)
]

unfoldable pub step_label : DemoPlan → String
step_label plan =
    if plan.kind == demo_kind_echo
    then "Echo: " ++ plan.title
    else if plan.kind == demo_kind_wait
    then "Wait (demo)"
    else "No operation"
