-- ===== src/Lib.antt =====
-- Verification library of the Smolit Assistant core (core/src).
--
-- The core takes requests from clients over IPC, and may act on the user's desktop on their behalf. An
-- action is announced, passes the capability guard and the interaction policy, waits for the user's
-- approval, and then runs on a backend; each of these events is broadcast and recorded in a bounded audit
-- store. Text and speech go through chains of providers, of which a resolver takes the first that
-- answers; the settings change the chains and the providers while the core runs, and are kept on disk.
-- The library models the path of an action from the request to the backend, and the providers and
-- settings from the environment and the disk to the resolvers.
--
-- The parts, and the files that model them:
--   Kinds          shared words: InteractionKind, demo kinds, risks, sources.
--   Config         core/src/config.rs: the records of Config and their defaults; Values reads one value,
--                  Dotenv the lines of a .env file, Load the whole (Config::load).
--   Providers      core/src/providers/{text,stt,tts}.rs and core/src/audio/types.rs: Chain
--                  (validate_*_chain), Classes (classify_error), Endpoint (parse_endpoint), Http
--                  (http_request*), Text (the abrain, local_http and cloud_http providers), Llamafile
--                  (LlamafileLocalProvider), Command (split_command and the external commands),
--                  Resolver (the run over a chain, one definition for the three axes) and Axes (the
--                  providers of each axis, from_chain, the initial status).
--   Settings       core/src/settings_store.rs and core/src/secrets_store.rs: the loads; Overrides for
--                  apply_*_override, Saves for save_*_override, clear_*_override and the key.
--   Capabilities   core/src/capabilities.rs: the identifiers, what they mean by default, and the
--                  sanitizer (capability_id_for_*, risk_for_capability, sanitize_capability_id).
--   Guard          core/src/capability_guard.rs: guard_capability and its two callers. The tests of
--                  guard_capability stand in guard_id, in the order of the source.
--   Plan           core/src/actions/plan.rs: DemoPlan::new, set_status, step_label.
--   Audit          core/src/audit/event.rs (fields, builders, sanitizer); Audit/Correlation for
--                  correlation.rs, Audit/Store for store.rs (AuditStore::record is record_event).
--   Messages       core/src/actions/{event,target,mapping}.rs, core/src/approvals/{request,response}.rs
--                  and the envelopes of core/src/ipc/protocol.rs that the modelled flows use.
--   Action         core/src/interaction/{action,types,recovery,verifier}.rs: actions, errors, hints and
--                  verification results.
--   Interaction    core/src/interaction/executor.rs: the policy, and the executor over an interface
--                  Backend (backend.rs); Interaction/Selection for selection.rs.
--   Approvals      core/src/approvals/state.rs: the registry of pending approvals.
--   App            core/src/app.rs: State (App, identifiers, broadcast, audit), Targets (selection and
--                  resolve_approval), Lifecycle (approval_message, the audit of a run),
--                  DemoApproval (request_approval_demo and what follows), Planner
--                  (plan_demo_action and what follows), Dispatch
--                  (dispatch_interaction and what follows), Tasks (the waits). Quiet names the
--                  state changes that do not reach the desktop. Live holds the part of App that the
--                  settings act on, with Live/Updates and Live/Chains for the update_*, reset_* and
--                  set_* methods, Live/Start for App::new, Live/Status (build_status_payload), Live/Speech
--                  (the text and speech flows) and Live/Probes (probe_*); it is a state of its own
--                  beside State.
--   Ipc            core/src/ipc/server.rs: the handlers of the action, approval, selection and audit
--                  requests; Ipc/Services for text, speech, status and settings.
--   System         the core as a transition system over requests, deadlines and task continuations; Whole
--                  starts it as core/src/main.rs does and adds the requests of Ipc/Services and the checks
--                  of the llamafile watchdog.
--   Tests          runs at concrete inputs, and the theorems applied to them.
--   Base           shared lists, texts, tests and numerals.
--
-- State is passed explicitly: a method of App takes the state and gives its new value beside its answer.
-- A one-shot channel is a place in a store of the registry; the registry holds the sender as that
-- place, the waiting task the receiver. A spawned task is an entry of the state's task list. The three
-- functions that wait on an approval are cut at the wait: App/Tasks models `timeout(.., rx).await` (a
-- decision that has arrived goes before the deadline; a deadline drops the receiver first, and the
-- registry entry goes when the task continues), and the rest of each function takes the decision and
-- its source. The steps of System are a handled request, a passed deadline and a continued task; each is
-- taken as atomic, so that broadcasts and audit entries of two tasks that run in parallel are not
-- interleaved within one step. The sleep of 100 ms in a waiting demo plan is not a step of its own.
--
-- The calls of the providers outside are numbered: Providers/Outside is a record of tables (connections,
-- programs, the llamafile server, the clock, JSON) that answer the n-th call, and a function that makes
-- calls takes the number of its first call and gives the number of the next. An error is the list of its
-- messages, the outermost first. A disk is the list of its stored values, with a table that says which
-- of its changes fail.
--
-- Parameters: the calls outside of the providers, the metadata of a file for the probes, the backend and the desktop behind it, the clock as a function of the number of readings,
-- and the Unicode table behind `str::to_lowercase`, which only the text of an approval card uses.
--
-- Numbers are natural numbers; the 64-bit counters of identifiers, correlation and audit wrap at
-- 2 ^ 64. The readiness loop of llamafile takes a number of rounds, four for each second that the start
-- may take and one more, since each round sleeps a quarter of a second; all other functions are
-- structurally recursive.
--
-- Not modelled: serialisation and the WebSocket loop, logging, the command line parser and the search for
-- the .env file, the times of the llamafile watchdog between its checks, the accessibility probe and its
-- requests, the command backend, and the user interface.
pub mod Base
pub mod Kinds
pub mod Config
pub mod Providers
pub mod Settings
pub mod Capabilities
pub mod Guard
pub mod Plan
pub mod Audit
pub mod Messages
pub mod Action
pub mod Interaction
pub mod Approvals
pub mod App
pub mod Ipc
pub mod System
pub mod Tests
