-- ===== src/App/Dispatch/AuditTrail.antt =====
-- What the continuation of an interaction in core/src/app.rs records in the audit store.
use smolit_assistant.Base.{ℕ, ◌+◌, String, ◌≡◌, refl, ◌∙◌, List, [], ◌∷◌}
use smolit_assistant.Kinds.{risk_medium}
use smolit_assistant.Messages.{
  ApprovalDecision, approved, denied, cancelled, timed_out, OutgoingMessage,
}
use smolit_assistant.Audit.{
  AuditKind, AuditFields, with_approval_id, with_risk, with_result, source_core, result_completed,
  result_failed,
}
use smolit_assistant.Audit.Store.Ring.{Entry, record_all}
use smolit_assistant.Interaction.{
  Outcome, succeeded, errored, perform, closing, run_approved, started, step, step_title_for_kind,
  verification_event, completed, failed_event,
}
use smolit_assistant.Action.{InteractionAction, action_kind_of}
use smolit_assistant.App.State.{Env, App, broadcast, record_audit}
use smolit_assistant.App.Dispatch.{
  run_now, broadcast_all, cancel_interaction, after_decision, await_and_continue,
}
use smolit_assistant.App.Lifecycle.{
  action_fields, decision_result, audit_message, record_interaction_lifecycle_audit,
}

-- The fields of an entry of the core about an action.
abbrev pub core_fields : InteractionAction → AuditFields
core_fields action = action_fields action source_core action.title action.correlation_id

-- The entry that closes a run.
abbrev pub final_entry : InteractionAction → Outcome → AuditKind × AuditFields
final_entry action (succeeded verification) =
    (AuditKind.action_completed, with_result result_completed (core_fields action))
final_entry action (errored e) =
    (AuditKind.action_failed, with_result result_failed (core_fields action))

module _ {W : Type 0} (env : Env W) where
  abbrev pub final_at : ℕ → AuditKind × AuditFields → Entry
  final_at n (kind, fields) = (env.clock n, kind, fields)

  -- The entries after the one of the resolution; `n` is the number of clock readings before them.
  abbrev pub trail : InteractionAction → ApprovalDecision → String → ℕ → W → List Entry
  trail action approved source n w =
      (env.clock n, AuditKind.action_started, core_fields action)
      ∷ final_at (n + 1) (final_entry action (perform env.backend w action action.payload).1)
      ∷ []
  trail action denied source n w =
      (
        env.clock n,
        AuditKind.action_cancelled,
        with_result (decision_result denied)
            (action_fields action source action.title action.correlation_id),
      )
      ∷ []
  trail action cancelled source n w =
      (
        env.clock n,
        AuditKind.action_cancelled,
        with_result (decision_result cancelled)
            (action_fields action source action.title action.correlation_id),
      )
      ∷ []
  trail action timed_out source n w =
      (
        env.clock n,
        AuditKind.action_cancelled,
        with_result (decision_result timed_out)
            (action_fields action source action.title action.correlation_id),
      )
      ∷ []

  broadcast_all-audit :
      (msgs : List OutgoingMessage) (s : App W) → (broadcast_all env msgs s).audit ≡ s.audit
  unfolding broadcast_all broadcast
  broadcast_all-audit [] s = refl
  broadcast_all-audit (msg ∷ msgs) s = broadcast_all-audit msgs (broadcast msg s)

  run_lifecycle :
      (action : InteractionAction) (outcome : Outcome) (a b : String) (s : App W)
      → (record_interaction_lifecycle_audit env action
          (started action.action_id action.correlation_id
            ∷ step action.action_id a action.correlation_id
            ∷ step action.action_id b action.correlation_id
            ∷ closing action outcome)
          s).audit
        ≡ (record_all s.audit (
            (env.clock s.readings, AuditKind.action_started, core_fields action)
            ∷ final_at (s.readings + 1) (final_entry action outcome)
            ∷ [])).0
  unfolding record_interaction_lifecycle_audit audit_message record_audit closing started step
      verification_event completed failed_event record_all
  run_lifecycle action (succeeded v) a b s = refl
  run_lifecycle action (errored e) a b s = refl

  after_decision-audit :
      (action : InteractionAction) (decision : ApprovalDecision) (source : String) (s : App W)
      → (after_decision env action decision source s).audit
        ≡ (record_all s.audit (trail action decision source s.readings s.world)).0
  unfolding after_decision run_now run_approved cancel_interaction broadcast record_audit record_all
  after_decision-audit action approved source s =
      broadcast_all-audit (run_approved env.backend s.world action).1 (run_now env action s).1
      ∙ run_lifecycle action (perform env.backend s.world action action.payload).1
          "Resolving target" (step_title_for_kind (action_kind_of action))
          (record s { world = (run_approved env.backend s.world action).0 })
  after_decision-audit action denied source s = refl
  after_decision-audit action cancelled source s = refl
  after_decision-audit action timed_out source s = refl

  -- The continuation of an interaction leaves exactly these entries, in this order: the resolution with
  -- the decision's result and its source, and then for an approval the start and the end of the run as
  -- the backend reported it, for any other decision one cancellation.
  pub await_and_continue-audit :
      (action : InteractionAction) (approval_id : String) (decision : ApprovalDecision)
      (source : String) (s : App W)
      → (await_and_continue env action approval_id decision source s).audit
        ≡ (record_all s.audit (
            (
              env.clock s.readings,
              AuditKind.approval_resolved,
              with_approval_id approval_id (
                  with_risk risk_medium (
                    with_result
                      (decision_result decision)
                      (action_fields action source action.title action.correlation_id))),
            )
            ∷ trail action decision source (s.readings + 1) s.world)).0
  unfolding await_and_continue broadcast record_audit record_all
  await_and_continue-audit action approval_id decision source s =
      after_decision-audit action decision source _
