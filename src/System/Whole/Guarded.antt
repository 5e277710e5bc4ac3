-- ===== src/System/Whole/Guarded.antt =====
-- The whole core and the desktop: what the environment at the start has to say for an action to go
-- unconfirmed.
use smolit_assistant.Base.{
  ℕ, ◌≡◌, refl, ap, ◌∙◌, String, true, Option, List, [], ◌∷◌, inl, inr, Bool-cases,
}
use smolit_assistant.Config.{CliArgs}
use smolit_assistant.Config.Load.{load, lookup}
use smolit_assistant.Config.Strict.{IsNegated, load-confirmation_iff}
use smolit_assistant.Settings.{Disk}
use smolit_assistant.Approvals.Unapproved.{Unapproved, new-Unapproved}
use smolit_assistant.App.State.{Env, App, new_app}
use smolit_assistant.App.Live.{Live}
use smolit_assistant.Ipc.Services.{Services}
use smolit_assistant.Ipc.Services.Harmless.{handle_service-Quiet}
use smolit_assistant.System.Gate.{IsApproval, step-Unapproved-Quiet}
use smolit_assistant.System.Whole.{
  policy_of, boot, WholeEvent, acts, serves, checks, whole_step, run_whole,
}

-- No event of the list is a client's approval.
abbrev pub Unapproving : List WholeEvent → Type 0
Unapproving [] = Unit
Unapproving (acts e ∷ es) = (IsApproval e → ⊥) × Unapproving es
Unapproving (serves msg ∷ es) = Unapproving es
Unapproving (checks now ∷ es) = Unapproving es

-- Without a word for false in the variable, the policy of the start requires confirmation.
boot_strict :
    (args : CliArgs) (env : String → Option String) (dotenv : List (String × String))
    → (IsNegated (lookup env dotenv "SMOLIT_INTERACTION_REQUIRE_CONFIRMATION") → ⊥)
    → (load args env dotenv).interaction.require_confirmation ≡ true
boot_strict args env dotenv kept =
    elim (Bool-cases (load args env dotenv).interaction.require_confirmation) [
      | inl on ↦ on
      | inr off ↦ absurd (kept ((load-confirmation_iff args env dotenv).0 off))
    ]

module _ {W : Type 0} (env : Env W) (v : Services) where
  whole_run-world :
      (es : List WholeEvent) (s : App W) (l : Live)
      → s.policy.require_confirmation ≡ true
      → Unapproved s.pending_approvals
      → Unapproving es
      → (run_whole env v es (s, l)).0.world ≡ s.world
  unfolding run_whole whole_step
  whole_run-world [] s l strict u quiet = refl
  whole_run-world (acts e ∷ es) s l strict u (first, later) =
      let q = step-Unapproved-Quiet env e s strict first u in
      whole_run-world es _ l (ap (λ p. p.require_confirmation) q.policy ∙ strict) (q.unapproved u)
        later
      ∙ q.world
  whole_run-world (serves msg ∷ es) s l strict u later =
      let q = handle_service-Quiet v msg s l in
      whole_run-world es _ _ (ap (λ p. p.require_confirmation) q.policy ∙ strict) (q.unapproved u)
        later
      ∙ q.world
  whole_run-world (checks now ∷ es) s l strict u later = whole_run-world es s _ strict u later

  -- A core whose environment, or else its .env file, holds none of `false`, `0`, `no` and `off` for
  -- SMOLIT_INTERACTION_REQUIRE_CONFIRMATION never changes the desktop in a run without a client's
  -- approval: whatever is on the disk, whatever the clients ask of the actions, the providers and the
  -- settings, whatever the providers do, and in whatever order deadlines pass and tasks continue.
  pub boot-unapproved_world :
      (args : CliArgs) (vars : String → Option String) (dotenv : List (String × String))
      (disk : Disk) (capacity now : ℕ) (w : W) (es : List WholeEvent)
      → (IsNegated (lookup vars dotenv "SMOLIT_INTERACTION_REQUIRE_CONFIRMATION") → ⊥)
      → Unapproving es
      → (run_whole env v es (boot args vars dotenv disk capacity now w)).0.world ≡ w
  unfolding boot new_app policy_of
  boot-unapproved_world args vars dotenv disk capacity now w es kept quiet =
      whole_run-world es _ _ (boot_strict args vars dotenv kept) new-Unapproved quiet
