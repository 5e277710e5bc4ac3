-- ===== src/System/Gate.antt =====
-- The steps of the core (core/src/app.rs, core/src/ipc/server.rs) and the desktop.
use smolit_assistant.Base.{ℕ, true, ◌≡◌, refl, ap, ◌∙◌, List, [], ◌∷◌, ◌⊎◌, inl, inr}
use smolit_assistant.Interaction.{InteractionPolicy, run_approved}
use smolit_assistant.Action.{InteractionAction}
use smolit_assistant.Approvals.Sound.{new-IsSound}
use smolit_assistant.Approvals.Unapproved.{Unapproved, new-Unapproved}
use smolit_assistant.Audit.Store.{with_capacity}
use smolit_assistant.Audit.Store.Ring.{with_capacity-IsRing}
use smolit_assistant.App.State.{Env, App, new_app}
use smolit_assistant.App.Quiet.{IsSafe, Quiet}
use smolit_assistant.App.Tasks.Outcomes.{elapse-Quiet, finish-Outcome, Approved}
use smolit_assistant.Ipc.Gated.{Approves, handle-Quiet}
use smolit_assistant.System.{Event, requests, elapses, finishes, step, run}

-- The event is a client's approval.
unfoldable pub IsApproval : Event → Type 0
IsApproval (requests message) = Approves message
IsApproval (elapses i) = ⊥
IsApproval (finishes i) = ⊥

-- No event of the list is a client's approval.
abbrev pub NeverApproved : List Event → Type 0
NeverApproved [] = Unit
NeverApproved (e ∷ es) = (IsApproval e → ⊥) × NeverApproved es

module _ {W : Type 0} (env : Env W) where
  -- Under a policy that requires confirmation, a step leaves the desktop as it was, unless it is the
  -- continuation of an interaction whose deadline had not passed and whose channel holds a client's
  -- approval: then the desktop is what one run of that action makes of it.
  pub step-world :
      (e : Event) (s : App W)
      → s.policy.require_confirmation ≡ true
      → ((step env e s).1.world ≡ s.world)
        ⊎ ((i : ℕ) × (action : InteractionAction) × (e ≡ finishes i)
            × Approved env i action s
            × ((step env e s).1.world ≡ (run_approved env.backend s.world action).0))
  unfolding step
  step-world (requests message) s strict = elim (handle-Quiet env message s strict) [
    | inl q ↦ inl q.world
    | inr (yes_sent, t) ↦ inl t.world
  ]
  step-world (elapses i) s strict = inl (elapse-Quiet i s).world
  step-world (finishes i) s strict = elim (finish-Outcome env i s) [
    | inl q ↦ inl q.world
    | inr (action, given, q) ↦ inr (i, action, refl, given, q.world)
  ]

  -- Under such a policy every step keeps the audit ring within its capacity, the channel of every
  -- pending approval, and the cleanness of the selected target; and it keeps the policy.
  pub step-IsSafe :
      (e : Event) (s : App W)
      → s.policy.require_confirmation ≡ true
      → IsSafe s
      → IsSafe (step env e s).1 × ((step env e s).1.policy ≡ s.policy)
  unfolding step
  step-IsSafe (requests message) s strict h = elim (handle-Quiet env message s strict) [
    | inl q ↦ (q.safe h, q.policy)
    | inr (yes_sent, t) ↦ (t.safe h, t.policy)
  ]
  step-IsSafe (elapses i) s strict h = let q = elapse-Quiet i s in (q.safe h, q.policy)
  step-IsSafe (finishes i) s strict h = elim (finish-Outcome env i s) [
    | inl q ↦ (q.safe h, q.policy)
    | inr (action, given, q) ↦
        (q.safe (record { ring = h.ring; sound = h.sound; clean = h.clean }), q.policy)
  ]

  -- A step that is no approval, from a state in which no channel holds one, is quiet.
  pub step-Unapproved-Quiet :
      (e : Event) (s : App W)
      → s.policy.require_confirmation ≡ true
      → (IsApproval e → ⊥)
      → Unapproved s.pending_approvals
      → Quiet s (step env e s).1
  unfolding step IsApproval Approved Unapproved
  step-Unapproved-Quiet (requests message) s strict none_sent u =
      elim (handle-Quiet env message s strict) [
        | inl q ↦ q
        | inr (yes_sent, t) ↦ absurd (none_sent yes_sent)
      ]
  step-Unapproved-Quiet (elapses i) s strict none_sent u = elapse-Quiet i s
  step-Unapproved-Quiet (finishes i) s strict none_sent u = elim (finish-Outcome env i s) [
    | inl q ↦ q
    | inr (action, (id, c, at, ch), q) ↦ absurd (u c ch)
  ]

  world-run :
      (es : List Event) (s : App W)
      → s.policy.require_confirmation ≡ true
      → Unapproved s.pending_approvals
      → NeverApproved es
      → (run env es s).world ≡ s.world
  unfolding run
  world-run [] s strict u quiet = refl
  world-run (e ∷ es) s strict u (first, later) =
      let q = step-Unapproved-Quiet e s strict first u in
      world-run es (step env e s).1 (ap (λ p. p.require_confirmation) q.policy ∙ strict)
        (q.unapproved u) later
      ∙ q.world

  -- A core that starts with a policy that requires confirmation never changes the desktop in a run
  -- without a client's approval, whatever else the clients ask for, in whatever order deadlines pass and
  -- tasks continue.
  pub run-NeverApproved :
      (es : List Event) (policy : InteractionPolicy) (timeout_seconds capacity : ℕ) (w : W)
      → policy.require_confirmation ≡ true
      → NeverApproved es
      → (run env es (new_app policy timeout_seconds (with_capacity capacity) w)).world ≡ w
  unfolding new_app
  run-NeverApproved es policy timeout_seconds capacity w strict quiet =
      world-run es (new_app policy timeout_seconds (with_capacity capacity) w) strict new-Unapproved
        quiet

  run-IsSafe :
      (es : List Event) (s : App W)
      → s.policy.require_confirmation ≡ true
      → IsSafe s
      → IsSafe (run env es s)
  unfolding run
  run-IsSafe [] s strict h = h
  run-IsSafe (e ∷ es) s strict h =
      let (next, policy_same) = step-IsSafe e s strict h in
      run-IsSafe es (step env e s).1 (ap (λ p. p.require_confirmation) policy_same ∙ strict) next

  -- Every state that such a core reaches is safe, whatever capacity was asked for.
  pub reachable-IsSafe :
      (es : List Event) (policy : InteractionPolicy) (timeout_seconds capacity : ℕ) (w : W)
      → policy.require_confirmation ≡ true
      → IsSafe (run env es (new_app policy timeout_seconds (with_capacity capacity) w))
  unfolding new_app
  reachable-IsSafe es policy timeout_seconds capacity w strict =
      run-IsSafe es (new_app policy timeout_seconds (with_capacity capacity) w) strict
        (record { ring = with_capacity-IsRing capacity; sound = new-IsSound; clean = λ t h. cc })
