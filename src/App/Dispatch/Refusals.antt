-- ===== src/App/Dispatch/Refusals.antt =====
-- `dispatch_interaction` of core/src/app.rs on a refusal by the guard or by the policy.
use smolit_assistant.Base.{String, ◌≡◌, Option, some, ◌⊎◌}
use smolit_assistant.Guard.{guard_interaction_kind, allow, deny}
use smolit_assistant.Interaction.{allows}
use smolit_assistant.Action.{InteractionAction, InteractionError, action_kind_of}
use smolit_assistant.App.State.{App}

module _ {W : Type 0} where
  -- Nothing was started and nothing asked for: tasks, approvals, broadcasts and desktop are the same.
  pub record Inert (s t : App W) : Type 0 where
    pub tasks : t.tasks ≡ s.tasks
    pub pending : t.pending_approvals ≡ s.pending_approvals
    pub broadcasts : t.broadcasts ≡ s.broadcasts
    pub world : t.world ≡ s.world

-- The guard denies the kind, or the policy does.
abbrev pub IsBarred : {W : Type 0} → InteractionAction → App W → Type 0
IsBarred action s =
    ((reason : String) × (hint : Option String) × (guard_interaction_kind (action_kind_of action)
        ≡ deny reason hint))
    ⊎ ((guard_interaction_kind (action_kind_of action) ≡ allow)
        × ((e : InteractionError) × (allows s.policy (action_kind_of action) ≡ some e)))
