-- ===== src/App/State.antt =====
-- The state of core/src/app.rs that the action and approval flows use, and the operations on it that
-- these flows share. Each method takes the state and gives its new value beside its answer.
use smolit_assistant.Base.{
  ℕ, ◌+◌, ◌%◌, ◌^◌, String, Bool, Option, none, List, [], ◌∷◌, ◌++◌, decimal06,
}
use Prim.Native.String
use smolit_assistant.Messages.{OutgoingMessage, SelectedTarget}
use smolit_assistant.Interaction.{Backend, InteractionPolicy}
use smolit_assistant.Action.{InteractionAction}
use smolit_assistant.Plan.{DemoPlan}
use smolit_assistant.Audit.{AuditKind, AuditFields}
use smolit_assistant.Audit.Store.{AuditStore, record_event}
use smolit_assistant.Audit.Correlation
use smolit_assistant.Approvals
use smolit_assistant.Approvals.{Registry}

-- What the core is given from outside: the desktop backend, the n-th reading of the clock in
-- milliseconds, and the Unicode table behind `str::to_lowercase`.
pub record Env (W : Type 0) : Type 0 where
  pub backend : Backend W
  pub clock : ℕ → ℕ
  pub to_lowercase : String → String

-- What a task that waits for an approval does with the decision.
pub data Job : Type 0 where
  demo_only : String → Job
  demo_plan : DemoPlan → String → Job
  interaction : InteractionAction → Job

-- A spawned task: it waits for an approval (identifier, channel, whether its time ran out), or it
-- runs a plan that needs none.
pub data Task : Type 0 where
  awaits : String → ℕ → Bool → Job → Task
  runs_plan : DemoPlan → String → Task

-- `broadcasts` lists what was sent on the event channel; `world` is the desktop behind the backend.
pub record App (W : Type 0) : Type 0 where
  pub policy : InteractionPolicy
  pub timeout_seconds : ℕ
  pub action_counter : ℕ
  pub approval_counter : ℕ
  pub selection_counter : ℕ
  pub correlation_counter : ℕ
  pub pending_approvals : Registry
  pub audit : AuditStore
  pub selected_target : Option SelectedTarget
  pub broadcasts : List OutgoingMessage
  pub tasks : List Task
  pub readings : ℕ
  pub world : W

unfoldable pub new_app : {W : Type 0} → InteractionPolicy → ℕ → AuditStore → W → App W
unfolding Approvals.new
new_app policy timeout_seconds audit world = record {
  policy = policy;
  timeout_seconds = timeout_seconds;
  action_counter = 0;
  approval_counter = 0;
  selection_counter = 0;
  correlation_counter = 0;
  pending_approvals = Approvals.new;
  audit = audit;
  selected_target = none;
  broadcasts = [];
  tasks = [];
  readings = 0;
  world = world;
}

-- The counters are `u64` and wrap.
abbrev pub next : ℕ → ℕ
next counter = (counter + 1) % 2 ^ 64

module _ {W : Type 0} where
  unfoldable pub next_action_id : App W → String × App W
  next_action_id s =
      let n = next s.action_counter in
      (String.◌++◌ "act_" (decimal06 n), record s { action_counter = n })

  unfoldable pub next_approval_id : App W → String × App W
  next_approval_id s =
      let n = next s.approval_counter in
      (String.◌++◌ "apr_" (decimal06 n), record s { approval_counter = n })

  unfoldable pub next_selection_id : App W → String × App W
  next_selection_id s =
      let n = next s.selection_counter in
      (String.◌++◌ "sel_" (decimal06 n), record s { selection_counter = n })

  unfoldable pub broadcast : OutgoingMessage → App W → App W
  broadcast msg s = record s { broadcasts = s.broadcasts ++ msg ∷ [] }

  -- `self.pending_approvals.register(..)`; the channel stands for the receiver.
  unfoldable pub register_approval : String → App W → ℕ × App W
  register_approval id s =
      let (c, r) = Approvals.register id s.pending_approvals in
      (c, record s { pending_approvals = r })

  unfoldable pub spawn : Task → App W → App W
  spawn task s = record s { tasks = s.tasks ++ task ∷ [] }

  module _ (env : Env W) where
    unfoldable pub read_clock : App W → ℕ × App W
    read_clock s = (env.clock s.readings, record s { readings = s.readings + 1 })

    unfoldable pub generate_correlation_id : App W → String × App W
    unfolding read_clock
    generate_correlation_id s =
        let (ts, s') = read_clock s in
        let (id, n) = Correlation.generate_correlation_id ts s.correlation_counter in
        (id, record s' { correlation_counter = n })

    -- `self.audit.record(..)`, whose answer the flows discard.
    unfoldable pub record_audit : AuditKind → AuditFields → App W → App W
    unfolding read_clock
    record_audit kind fields s =
        let (now, s') = read_clock s in
        record s' { audit = (record_event s.audit now kind fields).0 }
