-- ===== src/Tests/Paths.antt =====
-- The theorems on the interaction path and the planner (core/src/app.rs), applied to concrete inputs.
use smolit_assistant.Base.{
  false, true, ◌≡◌, refl, none, some, [], ◌∷◌, ◌↔◌, ◌++◌, get_elem?, decimal06, trim,
}
use smolit_assistant.Kinds.{kind_str, source_timeout}
use smolit_assistant.Capabilities.{is_known_capability_id, is_executable_today}
use smolit_assistant.Messages.{approved, denied, timed_out, decision_str, approval_resolved}
use smolit_assistant.Plan
use smolit_assistant.Plan.{DemoPlan, is_terminal}
use smolit_assistant.Interaction.{allows}
use smolit_assistant.Action.{InteractionAction, type_text_payload, open_application_action}
use smolit_assistant.Approvals.{register, take, find, waiting}
use smolit_assistant.App.State.{App, new_app, awaits, interaction}
use smolit_assistant.Audit.{sanitize_result, AuditKind, with_approval_id, with_risk, with_result}
use smolit_assistant.App.AuditWords.{decision_words}
use smolit_assistant.App.Quiet.{Quiet}
use smolit_assistant.App.Dispatch.{await_and_continue, dispatch_interaction}
use smolit_assistant.App.Lifecycle.{decision_result, action_fields}
use smolit_assistant.App.Dispatch.AuditTrail.{trail, await_and_continue-audit}
use smolit_assistant.Audit.Store.Ring.{record_all}
use smolit_assistant.App.Dispatch.Traces
use smolit_assistant.App.Dispatch.Traces.{await_and_continue-broadcasts}
use smolit_assistant.App.Dispatch.Gated.{dispatch_interaction-Quiet}
use smolit_assistant.App.Planner.{await_and_execute_demo_plan}
use smolit_assistant.App.Planner.Traces as PlanTraces
use smolit_assistant.App.Planner.Traces.{await_and_execute_demo_plan-broadcasts}
use smolit_assistant.App.Dispatch.Answered.{opened}
use smolit_assistant.App.Tasks.{finish, elapse, continue, without_task}
use smolit_assistant.App.Tasks.Timeouts.{finish-elapse}
use smolit_assistant.Ipc.{interaction_open_application}
use smolit_assistant.System.{requests, run}
use smolit_assistant.Tests.Fixtures.{Desktop, env, core}

await_and_continue-broadcasts_example :
    (await_and_continue env (opened env "calendar" core) "apr_000001" denied "user" core).broadcasts
    ≡ core.broadcasts
      ++ approval_resolved (record {
        approval_id = "apr_000001";
        action_id = (opened env "calendar" core).action_id;
        decision = decision_str denied;
        source = "user";
        correlation_id = (opened env "calendar" core).correlation_id;
      })
        ∷ Traces.aftermath env (opened env "calendar" core) denied core.world
await_and_continue-broadcasts_example =
    await_and_continue-broadcasts env (opened env "calendar" core) "apr_000001" denied "user" core

-- An action whose kind the guard denies.
abbrev typing : InteractionAction
typing = record (open_application_action "act_000001" "calendar") {
  payload = type_text_payload "hello";
  correlation_id = some "corr_given";
}

dispatch_interaction-Quiet_example :
    Quiet core (dispatch_interaction env (opened env "calendar" core) core).1
unfolding new_app
dispatch_interaction-Quiet_example =
    dispatch_interaction-Quiet env (opened env "calendar" core) core refl

abbrev plan : DemoPlan
plan = Plan.new "act_000001" "Echo" "Demo echo" "demo_echo" "low" true

await_and_execute_demo_plan-broadcasts_example :
    (await_and_execute_demo_plan env plan "apr_000001" "corr_given" timed_out "timeout"
      core).broadcasts
    ≡ core.broadcasts
      ++ approval_resolved (record {
        approval_id = "apr_000001";
        action_id = plan.action_id;
        decision = decision_str timed_out;
        source = "timeout";
        correlation_id = some "corr_given";
      })
        ∷ PlanTraces.aftermath plan "corr_given" timed_out
unfolding Plan.new is_terminal
await_and_execute_demo_plan-broadcasts_example =
    await_and_execute_demo_plan-broadcasts env plan "apr_000001" "corr_given" timed_out "timeout"
      core refl

decision_words_example :
    ((sanitize_result (some (decision_str timed_out)) ≡ none) ↔ (timed_out ≡ timed_out))
    × (sanitize_result (some (decision_result timed_out)) ≡ some (decision_result timed_out))
decision_words_example = decision_words timed_out

await_and_continue-audit_example :
    (await_and_continue env (opened env "calendar" core) "apr_000001" approved "user" core).audit
    ≡ (record_all core.audit (
        (
          0,
          AuditKind.approval_resolved,
          with_approval_id "apr_000001" (
              with_risk "medium" (
                with_result (decision_result approved) (
                  action_fields
                    (opened env "calendar" core)
                    "user"
                    (opened env "calendar" core).title
                    (opened env "calendar" core).correlation_id))),
        )
        ∷ trail env (opened env "calendar" core) approved "user" 1 core.world)).0
unfolding new_app
await_and_continue-audit_example =
    await_and_continue-audit env (opened env "calendar" core) "apr_000001" approved "user" core

-- The core with one request for an approval.
abbrev asked : App Desktop
asked = run env (requests (interaction_open_application "calendar") ∷ []) core

asked_state :
    (get_elem? asked.tasks 0
      ≡ some (awaits "apr_000001" 0 false (interaction (opened env "calendar" core))))
    × (get_elem? asked.pending_approvals.channels 0 ≡ some waiting)
    × (find "apr_000001" asked.pending_approvals.pending ≡ some 0)
unfolding run new_app decimal06 trim is_known_capability_id is_executable_today allows kind_str
    register find
asked_state = (refl, refl, refl)

finish-elapse_example :
    finish env 0 (elapse 0 asked)
    ≡ continue env
        (interaction (opened env "calendar" core))
        "apr_000001"
        timed_out
        source_timeout
        (without_task 0 (record (elapse 0 asked) {
          pending_approvals = (take "apr_000001" (elapse 0 asked).pending_approvals).1;
        }))
finish-elapse_example =
    finish-elapse env 0 "apr_000001" 0 (interaction (opened env "calendar" core)) asked
      asked_state.0 asked_state.1
