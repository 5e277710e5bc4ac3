-- ===== src/App/Quiet.antt =====
-- State changes of core/src/app.rs that do not reach the desktop, and the operations that all flows share.
use smolit_assistant.Base.{String, ◌≡◌, refl, ◌∙◌, Option, some, ◌⊎◌, inl, inr}
use smolit_assistant.Messages.{OutgoingMessage, SelectedTarget}
use smolit_assistant.Interaction.Selection.{IsClean}
use smolit_assistant.Guard.{CapabilityGuardDecision, allow, deny}
use smolit_assistant.Audit.{AuditKind, AuditFields}
use smolit_assistant.Audit.Store.Ring.{IsRing, record_event-IsRing}
use smolit_assistant.Approvals.Delivery.{IsSound}
use smolit_assistant.Approvals.Calls.{registers}
use smolit_assistant.Approvals.Sound.{call-IsSound}
use smolit_assistant.Approvals.Unapproved.{Unapproved, register-Unapproved}
use smolit_assistant.App.State.{
  Env, App, Task, next_action_id, next_approval_id, next_selection_id, broadcast, register_approval,
  spawn, generate_correlation_id, record_audit,
}

-- A state that the core may be in: the audit store is a ring within its capacity, every pending
-- approval has its channel, and a selected target is clean.
pub record IsSafe {W : Type 0} (s : App W) : Type 0 where
  pub ring : IsRing s.audit
  pub sound : IsSound s.pending_approvals
  pub clean : (t : SelectedTarget) → s.selected_target ≡ some t → IsClean t

-- From `s` to `t`, safety is kept, the desktop and the policy are the same, and no approval appears.
pub record Quiet {W : Type 0} (s t : App W) : Type 0 where
  pub safe : IsSafe s → IsSafe t
  pub world : t.world ≡ s.world
  pub policy : t.policy ≡ s.policy
  pub unapproved : Unapproved s.pending_approvals → Unapproved t.pending_approvals

pub decision-cases :
    (g : CapabilityGuardDecision)
    → (g ≡ allow) ⊎ ((reason : String) × (hint : Option String) × (g ≡ deny reason hint))
decision-cases allow = inl refl
decision-cases (deny reason hint) = inr (reason, hint, refl)

module _ {W : Type 0} where
  pub still : (s : App W) → Quiet s s
  still s = record { safe = λ h. h; world = refl; policy = refl; unapproved = λ u. u }

  infixl 6 ◌⨾◌
  pub ◌⨾◌ : {s t u : App W} → Quiet s t → Quiet t u → Quiet s u
  ◌⨾◌ p q = record {
    safe = λ h. q.safe (p.safe h);
    world = q.world ∙ p.world;
    policy = q.policy ∙ p.policy;
    unapproved = λ u. q.unapproved (p.unapproved u);
  }

  pub next_action_id-Quiet : (s : App W) → Quiet s (next_action_id s).1
  unfolding next_action_id
  next_action_id-Quiet s = record {
    safe = λ h. record { ring = h.ring; sound = h.sound; clean = h.clean };
    world = refl;
    policy = refl;
    unapproved = λ u. u;
  }

  pub next_approval_id-Quiet : (s : App W) → Quiet s (next_approval_id s).1
  unfolding next_approval_id
  next_approval_id-Quiet s = record {
    safe = λ h. record { ring = h.ring; sound = h.sound; clean = h.clean };
    world = refl;
    policy = refl;
    unapproved = λ u. u;
  }

  pub next_selection_id-Quiet : (s : App W) → Quiet s (next_selection_id s).1
  unfolding next_selection_id
  next_selection_id-Quiet s = record {
    safe = λ h. record { ring = h.ring; sound = h.sound; clean = h.clean };
    world = refl;
    policy = refl;
    unapproved = λ u. u;
  }

  pub broadcast-Quiet : (msg : OutgoingMessage) (s : App W) → Quiet s (broadcast msg s)
  unfolding broadcast
  broadcast-Quiet msg s = record {
    safe = λ h. record { ring = h.ring; sound = h.sound; clean = h.clean };
    world = refl;
    policy = refl;
    unapproved = λ u. u;
  }

  pub spawn-Quiet : (task : Task) (s : App W) → Quiet s (spawn task s)
  unfolding spawn
  spawn-Quiet task s = record {
    safe = λ h. record { ring = h.ring; sound = h.sound; clean = h.clean };
    world = refl;
    policy = refl;
    unapproved = λ u. u;
  }

  pub register_approval-Quiet : (id : String) (s : App W) → Quiet s (register_approval id s).1
  unfolding register_approval
  register_approval-Quiet id s = record {
    safe = λ h. record {
      ring = h.ring;
      sound = call-IsSound (registers id) s.pending_approvals h.sound;
      clean = h.clean;
    };
    world = refl;
    policy = refl;
    unapproved = register-Unapproved id s.pending_approvals;
  }

  module _ (env : Env W) where
    pub generate_correlation_id-Quiet : (s : App W) → Quiet s (generate_correlation_id env s).1
    unfolding generate_correlation_id
    generate_correlation_id-Quiet s = record {
      safe = λ h. record { ring = h.ring; sound = h.sound; clean = h.clean };
      world = refl;
      policy = refl;
      unapproved = λ u. u;
    }

    pub record_audit-Quiet :
        (kind : AuditKind) (fields : AuditFields) (s : App W)
        → Quiet s (record_audit env kind fields s)
    unfolding record_audit
    record_audit-Quiet kind fields s = record {
      safe = λ h. record {
        ring = record_event-IsRing s.audit (env.clock s.readings) kind fields h.ring;
        sound = h.sound;
        clean = h.clean;
      };
      world = refl;
      policy = refl;
      unapproved = λ u. u;
    }
