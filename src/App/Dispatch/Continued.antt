-- ===== src/App/Dispatch/Continued.antt =====
-- The continuation of an interaction in core/src/app.rs, and the desktop.
use smolit_assistant.Base.{String, ◌≢◌, refl, ap}
use smolit_assistant.Messages.{ApprovalDecision, approved, denied, cancelled, timed_out}
use smolit_assistant.Interaction.{run_approved}
use smolit_assistant.Action.{InteractionAction}
use smolit_assistant.App.State.{Env, App}
use smolit_assistant.App.Dispatch.{run_now, cancel_interaction, after_decision, await_and_continue}
use smolit_assistant.App.Quiet.{IsSafe, Quiet, ◌⨾◌, broadcast-Quiet, record_audit-Quiet}
use smolit_assistant.App.Dispatch.Gated.{broadcast_all-Quiet, lifecycle-Quiet}

module _ {W : Type 0} (env : Env W) where
  cancel_interaction-Quiet :
      (action : InteractionAction) (message : String) (decision : ApprovalDecision)
      (source : String) (s : App W)
      → Quiet s (cancel_interaction env action message decision source s)
  unfolding cancel_interaction
  cancel_interaction-Quiet action message decision source s =
      broadcast-Quiet _ s ⨾ record_audit-Quiet env _ _ _

  refused-Quiet :
      (action : InteractionAction) (decision : ApprovalDecision) (source : String) (s : App W)
      → decision ≢ approved
      → Quiet s (after_decision env action decision source s)
  unfolding after_decision
  refused-Quiet action approved source s h = absurd (h refl)
  refused-Quiet action denied source s h = cancel_interaction-Quiet action _ denied source s
  refused-Quiet action cancelled source s h = cancel_interaction-Quiet action _ cancelled source s
  refused-Quiet action timed_out source s h = cancel_interaction-Quiet action _ timed_out source s

  -- The desktop as the backend leaves it.
  abbrev pub moved : InteractionAction → App W → App W
  moved action s = record s { world = (run_approved env.backend s.world action).0 }

  run_now-Quiet :
      (action : InteractionAction) (s : App W) → Quiet (moved action s) (run_now env action s).1
  unfolding run_now
  run_now-Quiet action s =
      lifecycle-Quiet env action (run_approved env.backend s.world action).1 (moved action s)

  -- Without an approval the continuation of an interaction does not touch the desktop.
  pub await_and_continue-Quiet :
      (action : InteractionAction) (approval_id : String) (decision : ApprovalDecision)
      (source : String) (s : App W)
      → decision ≢ approved
      → Quiet s (await_and_continue env action approval_id decision source s)
  unfolding await_and_continue
  await_and_continue-Quiet action approval_id decision source s h =
      broadcast-Quiet _ s ⨾ record_audit-Quiet env _ _ _ ⨾ refused-Quiet action decision source _ h

  approved-Quiet :
      (action : InteractionAction) (source : String) (s : App W)
      → Quiet (moved action s) (after_decision env action approved source s)
  unfolding after_decision
  approved-Quiet action source s =
      run_now-Quiet action s ⨾ broadcast_all-Quiet env (run_now env action s).0 _

  moved-Quiet :
      (action : InteractionAction) (s t : App W)
      → Quiet s t
      → Quiet (moved action s) (moved action t)
  moved-Quiet action s t q = record {
    safe = λ h. later (q.safe (record { ring = h.ring; sound = h.sound; clean = h.clean }));
    world = ap (λ w. (run_approved env.backend w action).0) q.world;
    policy = q.policy;
    unapproved = q.unapproved;
  }
    where
      later : IsSafe t → IsSafe (moved action t)
      later h = record { ring = h.ring; sound = h.sound; clean = h.clean }

  -- With an approval it runs the backend once, on the desktop as it is then.
  pub await_and_continue_approved :
      (action : InteractionAction) (approval_id source : String) (s : App W)
      → Quiet (moved action s) (await_and_continue env action approval_id approved source s)
  unfolding await_and_continue
  await_and_continue_approved action approval_id source s =
      moved-Quiet action s _ (broadcast-Quiet _ s ⨾ record_audit-Quiet env _ _ _)
      ⨾ approved-Quiet action source _
