-- ===== src/Tests/Flows.antt =====
-- Flows through the core (core/src/app.rs, core/src/ipc/server.rs), run and proved about.
use smolit_assistant.Base.{true, ◌≡◌, refl, none, List, [], ◌∷◌, length, decimal06, trim}
use smolit_assistant.Kinds.{kind_str, source_user}
use smolit_assistant.Capabilities.{is_known_capability_id, is_executable_today}
use smolit_assistant.Messages.{approved}
use smolit_assistant.Interaction.{allows}
use smolit_assistant.Approvals.{register}
use smolit_assistant.Approvals.Sound.{new-IsSound}
use smolit_assistant.Audit.Store.{with_capacity}
use smolit_assistant.App.State.{App, new_app, next_approval_id}
use smolit_assistant.App.Quiet.{IsSafe}
use smolit_assistant.App.Dispatch.{execute_open_application, await_and_continue}
use smolit_assistant.App.Targets.{resolve_approval}
use smolit_assistant.App.Dispatch.Answered.{opened, open_application-answer}
use smolit_assistant.App.Tasks.{finish, without_task}
use smolit_assistant.Ipc.{
  interaction_open_application, approval_approve, approval_deny, interaction_clear_target,
}
use smolit_assistant.Ipc.Gated.{Approves}
use smolit_assistant.System.{Event, requests, elapses, finishes, run}
use smolit_assistant.System.Gate.{IsApproval, run-NeverApproved, reachable-IsSafe}
use smolit_assistant.Tests.Fixtures.{Desktop, env, policy, core}

abbrev approving : List Event
approving =
    requests (interaction_open_application "calendar")
    ∷ requests (approval_approve "apr_000001")
    ∷ []

abbrev refusing : List Event
refusing =
    requests (interaction_open_application "calendar")
    ∷ requests (approval_deny "apr_000001")
    ∷ finishes 0
    ∷ requests interaction_clear_target
    ∷ elapses 0
    ∷ []

-- An approved request opens the application; a denied or an expired one does not.
flow_tests :
    ((run env
        (requests (interaction_open_application "calendar")
          ∷ requests (approval_approve "apr_000001")
          ∷ finishes 0
          ∷ [])
        core).world
      ≡ "calendar" ∷ [])
    × ((run env
          (requests (interaction_open_application "calendar")
            ∷ requests (approval_deny "apr_000001")
            ∷ finishes 0
            ∷ [])
          core).world
        ≡ [])
    × ((run env
          (requests (interaction_open_application "calendar")
            ∷ elapses 0
            ∷ requests (approval_approve "apr_000001")
            ∷ finishes 0
            ∷ [])
          core).world
        ≡ [])
unfolding run new_app decimal06 trim is_known_capability_id is_executable_today allows kind_str
    register
flow_tests = (refl, refl, refl)

run-NeverApproved_example : (run env refusing (new_app policy 30 (with_capacity 5) [])).world ≡ []
unfolding IsApproval Approves
run-NeverApproved_example =
    run-NeverApproved env refusing policy 30 5 [] refl
      (λ h. h, (λ h. h, (λ h. h, (λ h. h, (λ h. h, tt)))))

-- The core after a request and its approval.
abbrev ready : App Desktop
ready = run env approving core

ready_strict : ready.policy.require_confirmation ≡ true
unfolding run new_app decimal06 trim is_known_capability_id is_executable_today allows kind_str
    register
ready_strict = refl

reachable-IsSafe_example : IsSafe (run env approving (new_app policy 30 (with_capacity 0) []))
reachable-IsSafe_example = reachable-IsSafe env approving policy 30 0 [] refl

open_application-answer_example :
    let id = (next_approval_id core).0 in
    let (refusal, s') =
      resolve_approval id approved (execute_open_application env "calendar" core).1 in
    (refusal ≡ none)
    × (s'.world ≡ core.world)
    × (finish env (length core.tasks) s'
        ≡ await_and_continue env
            (opened env "calendar" core)
            id
            approved
            source_user
            (without_task (length core.tasks) s'))
unfolding new_app
open_application-answer_example =
    open_application-answer env "calendar" approved core new-IsSound refl refl refl
