-- ===== src/App/Tasks.antt =====
-- The background tasks of core/src/app.rs: the wait on an approval (`timeout(.., rx).await` in the three
-- functions that wait) and what follows it. A task's continuation is one step.
pub mod Outcomes
pub mod Timeouts
use smolit_assistant.Base.{
  ℕ, String, Bool, true, false, Option, none, some, List, [], ◌∷◌, get_elem?, set, erase_at,
  if◌then◌else◌,
}
use smolit_assistant.Kinds.{source_user, source_timeout, source_system}
use smolit_assistant.Messages.{ApprovalDecision, cancelled, timed_out}
use smolit_assistant.Approvals
use smolit_assistant.Approvals.{Channel, waiting, sent, sender_gone, receiver_gone}
use smolit_assistant.App.State.{
  Env, App, Job, demo_only, demo_plan, interaction, Task, awaits, runs_plan,
}
use smolit_assistant.App.Planner.{await_and_execute_demo_plan, execute_demo_plan}
use smolit_assistant.App.DemoApproval.{await_and_resolve_demo}
use smolit_assistant.App.Dispatch.{await_and_continue}

-- What a receiver reads: `Ok(Ok(decision))`, `Ok(Err(_))`, or nothing yet.
abbrev pub received : Option Channel → Option (ApprovalDecision × String)
received (some (sent decision)) = some (decision, source_user)
received (some sender_gone) = some (cancelled, source_system)
received _ = none

module _ {W : Type 0} where
  -- The decision, its source and the state after the wait, or `none` while the task is blocked. A task
  -- whose time ran out takes its registry entry out.
  unfoldable pub await_decision :
      String → ℕ → Bool → App W → Option ((ApprovalDecision × String) × App W)
  unfolding Approvals.take
  await_decision approval_id c true s = some (
    (timed_out, source_timeout),
    record s { pending_approvals = (Approvals.take approval_id s.pending_approvals).1 },
  )
  await_decision approval_id c false s =
      elim (received (get_elem? s.pending_approvals.channels c)) [
        | none ↦ none
        | some answer ↦ some (answer, s)
      ]

  -- The deadline passes while nothing was received: the receiver is dropped.
  expire : ℕ → Task → Option Channel → App W → App W
  unfolding Approvals.drop_receiver
  expire i (awaits approval_id c false job) (some waiting) s = record s {
    pending_approvals = Approvals.drop_receiver c s.pending_approvals;
    tasks = set s.tasks i (awaits approval_id c true job);
  }
  expire i task ch s = s

  channel_of : Task → App W → Option Channel
  channel_of (awaits approval_id c elapsed job) s = get_elem? s.pending_approvals.channels c
  channel_of (runs_plan plan correlation_id) s = none

  unfoldable pub elapse : ℕ → App W → App W
  unfolding expire channel_of
  elapse i s = elim (get_elem? s.tasks i) [
    | none ↦ s
    | some task ↦ expire i task (channel_of task s) s
  ]

  -- The task is gone once it has run.
  abbrev pub without_task : ℕ → App W → App W
  without_task i s = record s { tasks = erase_at s.tasks i }

module _ {W : Type 0} (env : Env W) where
  unfoldable pub continue : Job → String → ApprovalDecision → String → App W → App W
  unfolding await_and_resolve_demo await_and_execute_demo_plan await_and_continue
  continue (demo_only correlation_id) approval_id decision source s =
      await_and_resolve_demo env approval_id correlation_id decision source s
  continue (demo_plan plan correlation_id) approval_id decision source s =
      await_and_execute_demo_plan env plan approval_id correlation_id decision source s
  continue (interaction action) approval_id decision source s =
      await_and_continue env action approval_id decision source s

  unfoldable pub resume : ℕ → Task → App W → App W
  unfolding await_decision continue execute_demo_plan
  resume i (awaits approval_id c elapsed job) s = elim (await_decision approval_id c elapsed s) [
    | none ↦ s
    | some ((decision, source), s') ↦ continue job approval_id decision source (without_task i s')
  ]
  resume i (runs_plan plan correlation_id) s =
      execute_demo_plan env plan correlation_id (without_task i s)

  unfoldable pub finish : ℕ → App W → App W
  unfolding resume
  finish i s = elim (get_elem? s.tasks i) [ none ↦ s | some task ↦ resume i task s ]
