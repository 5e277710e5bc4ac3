-- ===== src/Interaction/Events.antt =====
-- The messages and the decisions of core/src/interaction/executor.rs.
use smolit_assistant.Base.{
  String, Bool, true, false, ◌&&◌, ◌≡◌, refl, ◌↔◌, ◌⊎◌, inl, inr, Option, none, some, List, [], ◌∷◌,
  All, Bool-cases, Option-cases, arith,
}
use smolit_assistant.Kinds.{
  InteractionKind, open_application, focus_window, type_text, send_shortcut, noop, unknown,
}
use smolit_assistant.Messages.{
  OutgoingMessage, action_planned, action_started, action_step, action_verification,
  action_completed, action_failed, action_cancelled,
}
use smolit_assistant.Interaction.{
  InteractionPolicy, Backend, Outcome, succeeded, errored, allows, perform, closing, refused,
  run_approved, execute, planned, step, step_title_for_kind,
}
use smolit_assistant.Action.{
  InteractionAction, InteractionError, confirmation_required, action_kind_of,
}

-- The action that a message of the action stream belongs to, with its correlation.
abbrev pub stamp : OutgoingMessage → Option (String × Option String)
stamp (action_planned p) = some (p.action_id, p.correlation_id)
stamp (action_started p) = some (p.action_id, p.correlation_id)
stamp (action_step p) = some (p.action_id, p.correlation_id)
stamp (action_verification p) = some (p.action_id, p.correlation_id)
stamp (action_completed p) = some (p.action_id, p.correlation_id)
stamp (action_failed p) = some (p.action_id, p.correlation_id)
stamp (action_cancelled p) = some (p.action_id, p.correlation_id)
stamp _ = none

-- The message ends the life of an action.
abbrev pub is_final : OutgoingMessage → Bool
is_final (action_completed p) = true
is_final (action_failed p) = true
is_final (action_cancelled p) = true
is_final _ = false

-- The list closes with its only final message.
abbrev pub EndsOnce : List OutgoingMessage → Type 0
EndsOnce [] = ⊥
EndsOnce (m ∷ []) = is_final m ≡ true
EndsOnce (m ∷ n ∷ ms) = (is_final m ≡ false) × EndsOnce (n ∷ ms)

abbrev pub Stamped : InteractionAction → List OutgoingMessage → Type 0
Stamped action = All (λ m. stamp m ≡ some (action.action_id, action.correlation_id))

closing_trace :
    (action : InteractionAction) (outcome : Outcome)
    → Stamped action (closing action outcome) × EndsOnce (closing action outcome)
unfolding closing
closing_trace action (succeeded v) = ((refl, (refl, tt)), (refl, refl))
closing_trace action (errored err) = ((refl, tt), refl)

closing_nonempty :
    (action : InteractionAction) (outcome : Outcome) (m : OutgoingMessage)
    → is_final m ≡ false
    → EndsOnce (m ∷ closing action outcome)
unfolding closing
closing_nonempty action (succeeded v) m h = (h, (refl, refl))
closing_nonempty action (errored err) m h = (h, refl)

module _ {W : Type 0} (backend : Backend W) where
  -- Whatever the backend answers, a run emits messages that all carry the action's identifier and
  -- correlation, of which the last is `completed` or `failed` and no other is final.
  pub run_approved_trace :
      (w : W) (action : InteractionAction)
      → let msgs = (run_approved backend w action).1 in Stamped action msgs × EndsOnce msgs
  unfolding run_approved
  run_approved_trace w action =
      let outcome = (perform backend w action action.payload).1 in
      (
        (refl, (refl, (refl, (closing_trace action outcome).0))),
        (
          refl,
          (
            refl,
            closing_nonempty action outcome
                (step action.action_id (step_title_for_kind (action_kind_of action))
                  action.correlation_id)
                refl,
          ),
        ),
      )

  -- `execute` is the announcement followed by the approved run, if the policy admits the kind and no
  -- confirmation is due; otherwise it announces, starts and fails the action, and leaves the desktop
  -- as it was.
  pub execute_cases :
      (policy : InteractionPolicy) (w : W) (action : InteractionAction)
      → ((allows policy (action_kind_of action) ≡ none)
          × ((action.requires_confirmation && policy.require_confirmation) ≡ false)
          × (execute backend policy w action ≡ (
            (run_approved backend w action).0,
            planned action ∷ (run_approved backend w action).1,
          )))
        ⊎ ((err : InteractionError) × ((allows policy (action_kind_of action) ≡ some err)
              ⊎ ((allows policy (action_kind_of action) ≡ none)
                  × ((action.requires_confirmation && policy.require_confirmation) ≡ true)
                  × (err ≡ confirmation_required)))
            × (execute backend policy w action ≡ (w, refused action err)))
  unfolding execute run_approved
  execute_cases policy w action = elim (Option-cases (allows policy (action_kind_of action))) [
    | inr (err, barred) ↦ inr (err, inl barred, rw (barred, execute))
    | inl free ↦ elim (Bool-cases (action.requires_confirmation && policy.require_confirmation)) [
      | inl due ↦ inr (confirmation_required, inr (free, due, refl), rw (free, execute) (rw due))
      | inr clear ↦ inl (free, clear, rw (free, execute) (rw clear))
    ]
  ]

-- The policy admits a kind exactly when the layer is enabled and the switch of the kind is on;
-- `noop` and `unknown` have no switch.
abbrev pub switch : InteractionPolicy → InteractionKind → Bool
switch p open_application = p.allow_open_application
switch p focus_window = p.allow_focus_window
switch p type_text = p.allow_type_text
switch p send_shortcut = p.allow_shortcuts
switch p noop = true
switch p unknown = true

pub allows_iff :
    (p : InteractionPolicy) (kind : InteractionKind)
    → (allows p kind ≡ none) ↔ ((p.enabled ≡ true) × (switch p kind ≡ true))
unfolding allows
allows_iff p kind = ground arith
