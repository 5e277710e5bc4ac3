-- ===== src/App/Tasks/Outcomes.antt =====
-- The background tasks of core/src/app.rs and the desktop.
use smolit_assistant.Base.{
  ℕ, String, true, false, ◌≡◌, ◌≢◌, refl, Option, none, some, get_elem?, ◌⊎◌, inl, inr,
  Option-cases,
}
use smolit_assistant.Kinds.{source_user}
use smolit_assistant.Messages.{ApprovalDecision, approved, denied, cancelled, timed_out}
use smolit_assistant.Action.{InteractionAction}
use smolit_assistant.Approvals
use smolit_assistant.Approvals.{Channel, waiting, sent, sender_gone, receiver_gone}
use smolit_assistant.Approvals.Calls.{takes}
use smolit_assistant.Approvals.Sound.{call-IsSound, drop_receiver-IsSound}
use smolit_assistant.Approvals.Unapproved.{take-Unapproved, drop_receiver-Unapproved}
use smolit_assistant.App.State.{
  Env, App, Job, demo_only, demo_plan, interaction, Task, awaits, runs_plan,
}
use smolit_assistant.App.Planner.Harmless.{
  await_and_resolve_demo-Quiet, await_and_execute_demo_plan-Quiet, execute_demo_plan-Quiet,
}
use smolit_assistant.App.Dispatch.Continued.{
  moved, await_and_continue-Quiet, await_and_continue_approved,
}
use smolit_assistant.App.Quiet.{Quiet, ◌⨾◌, still}
use smolit_assistant.App.Tasks.{
  received, await_decision, expire, channel_of, elapse, without_task, continue, resume, finish,
}

module _ {W : Type 0} where
  without_task-Quiet : (i : ℕ) (s : App W) → Quiet s (without_task i s)
  without_task-Quiet i s = record {
    safe = λ h. record { ring = h.ring; sound = h.sound; clean = h.clean };
    world = refl;
    policy = refl;
    unapproved = λ u. u;
  }

  expire-Quiet :
      (i : ℕ) (task : Task) (ch : Option Channel) (s : App W) → Quiet s (expire i task ch s)
  unfolding expire
  expire-Quiet i (awaits id c false job) (some waiting) s = record {
    safe = λ h. record {
      ring = h.ring;
      sound = drop_receiver-IsSound c s.pending_approvals h.sound;
      clean = h.clean;
    };
    world = refl;
    policy = refl;
    unapproved = drop_receiver-Unapproved c s.pending_approvals;
  }
  expire-Quiet i (awaits id c false job) (some (sent d)) s = still s
  expire-Quiet i (awaits id c false job) (some sender_gone) s = still s
  expire-Quiet i (awaits id c false job) (some receiver_gone) s = still s
  expire-Quiet i (awaits id c false job) none s = still s
  expire-Quiet i (awaits id c true job) ch s = still s
  expire-Quiet i (runs_plan plan correlation_id) ch s = still s

  pub elapse-Quiet : (i : ℕ) (s : App W) → Quiet s (elapse i s)
  unfolding elapse
  elapse-Quiet i s = elim (Option-cases (get_elem? s.tasks i)) [
    | inl e ↦ rw (e, elapse) (still s)
    | inr (task, e) ↦ rw (e, elapse) (expire-Quiet i task (channel_of task s) s)
  ]

  taken-Quiet :
      (id : String) (s : App W)
      → Quiet s (record s { pending_approvals = (Approvals.take id s.pending_approvals).1 })
  taken-Quiet id s = record {
    safe = λ h. record {
      ring = h.ring;
      sound = call-IsSound (takes id) s.pending_approvals h.sound;
      clean = h.clean;
    };
    world = refl;
    policy = refl;
    unapproved = take-Unapproved id s.pending_approvals;
  }

-- An approval is read only off a channel that a client sent it on.
pub received_approved :
    (o : Option Channel) (d : ApprovalDecision) (source : String)
    → received o ≡ some (d, source)
    → (d ≢ approved) ⊎ (o ≡ some (sent approved))
received_approved (some (sent approved)) d source h = inr refl
received_approved (some (sent denied)) d source h = inl (λ e. cc)
received_approved (some (sent cancelled)) d source h = inl (λ e. cc)
received_approved (some (sent timed_out)) d source h = inl (λ e. cc)
received_approved (some sender_gone) d source h = inl (λ e. cc)
received_approved (some waiting) d source h = cc
received_approved (some receiver_gone) d source h = cc
received_approved none d source h = cc

module _ {W : Type 0} (env : Env W) where
  -- Task `i` is an interaction whose time is not up, and its channel holds an approval.
  unfoldable pub Approved : ℕ → InteractionAction → App W → Type 0
  Approved i action s =
      (id : String) × (c : ℕ) × (get_elem? s.tasks i
        ≡ some (awaits id c false (interaction action)))
      × (get_elem? s.pending_approvals.channels c ≡ some (sent approved))

  -- What a continuation of a task may do: nothing to the desktop, or one run of an approved interaction.
  abbrev pub Outcome : ℕ → App W → App W → Type 0
  Outcome i s t =
      Quiet s t
      ⊎ ((action : InteractionAction) × Approved i action s × Quiet (moved env action s) t)

  continue-Quiet :
      (job : Job) (id : String) (d : ApprovalDecision) (source : String) (s : App W)
      → d ≢ approved
      → Quiet s (continue env job id d source s)
  unfolding continue
  continue-Quiet (demo_only correlation_id) id d source s h =
      await_and_resolve_demo-Quiet env id correlation_id d source s
  continue-Quiet (demo_plan plan correlation_id) id d source s h =
      await_and_execute_demo_plan-Quiet env plan id correlation_id d source s
  continue-Quiet (interaction action) id d source s h =
      await_and_continue-Quiet env action id d source s h

  moved_without :
      (action : InteractionAction) (i : ℕ) (s : App W)
      → Quiet (moved env action s) (moved env action (without_task i s))
  moved_without action i s = record {
    safe = λ h. record { ring = h.ring; sound = h.sound; clean = h.clean };
    world = refl;
    policy = refl;
    unapproved = λ u. u;
  }

  answered-Outcome :
      (i : ℕ) (id : String) (c : ℕ) (job : Job) (s : App W)
      → get_elem? s.tasks i ≡ some (awaits id c false job)
      → get_elem? s.pending_approvals.channels c ≡ some (sent approved)
      → Outcome i s (continue env job id approved source_user (without_task i s))
  unfolding continue Approved
  answered-Outcome i id c (demo_only correlation_id) s at ch = inl (
      without_task-Quiet i s
      ⨾ await_and_resolve_demo-Quiet env id correlation_id approved source_user _)
  answered-Outcome i id c (demo_plan plan correlation_id) s at ch = inl (
      without_task-Quiet i s
      ⨾ await_and_execute_demo_plan-Quiet env plan id correlation_id approved source_user _)
  answered-Outcome i id c (interaction action) s at ch = inr (
    action,
    (id, c, at, ch),
    moved_without action i s ⨾ await_and_continue_approved env action id source_user _,
  )

  resume-Outcome :
      (i : ℕ) (task : Task) (s : App W)
      → get_elem? s.tasks i ≡ some task
      → Outcome i s (resume env i task s)
  unfolding resume await_decision
  resume-Outcome i (runs_plan plan correlation_id) s at =
      inl (without_task-Quiet i s ⨾ execute_demo_plan-Quiet env plan correlation_id _)
  resume-Outcome i (awaits id c true job) s at =
      inl
        (taken-Quiet id s ⨾ without_task-Quiet i _ ⨾ continue-Quiet job id timed_out _ _ (λ e. cc))
  resume-Outcome i (awaits id c false job) s at =
      elim (Option-cases (received (get_elem? s.pending_approvals.channels c))) [
        | inl e ↦ rw (e, resume, await_decision) (inl (still s))
        | inr ((d, source), e) ↦
            elim (received_approved (get_elem? s.pending_approvals.channels c) d source e) [
              | inl other ↦
                  rw (e, resume, await_decision)
                    (inl (without_task-Quiet i s ⨾ continue-Quiet job id d source _ other))
              | inr ch ↦ rw (ch, resume, await_decision) (answered-Outcome i id c job s at ch)
            ]
      ]

  pub finish-Outcome : (i : ℕ) (s : App W) → Outcome i s (finish env i s)
  unfolding finish
  finish-Outcome i s = elim (Option-cases (get_elem? s.tasks i)) [
    | inl e ↦ rw (e, finish) (inl (still s))
    | inr (task, e) ↦ rw (e, finish) (resume-Outcome i task s e)
  ]
