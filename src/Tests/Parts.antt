-- ===== src/Tests/Parts.antt =====
-- The theorems on the parts of the core, applied to concrete inputs.
use smolit_assistant.Base.{
  String, true, ◌≡◌, ◌≢◌, refl, ◌↔◌, none, some, List, [], ◌∷◌, ◌++◌, get_elem?, min, In, trim,
  arith,
}
use smolit_assistant.Capabilities.{
  known_capability_ids, is_executable_today, sanitize_capability_id,
}
use smolit_assistant.Capabilities.Vocabulary.{sanitize_iff}
use smolit_assistant.Guard.{allow, guard_capability, for_capability}
use smolit_assistant.Guard.FailClosed.{guard_capability_iff}
use smolit_assistant.Plan
use smolit_assistant.Plan.{DemoPlan, DemoPlanStatus, set_status, is_terminal}
use smolit_assistant.Plan.Status.{run_statuses, terminal_absorbs}
use smolit_assistant.Audit.{AuditKind, AuditFields, no_fields, with_summary, with_risk}
use smolit_assistant.Audit.Correlation.{generate_correlation_id, sanitize_correlation_id}
use smolit_assistant.Audit.Correlation.Generated.{sanitize-generate}
use smolit_assistant.Audit.Store.{with_capacity, clamp_capacity, list_recent}
use smolit_assistant.Audit.Store.Ring.{last_n, with_capacity-IsRing, Entry, record_all}
use smolit_assistant.Audit.Store.History.{record_all_events, list_recent_history}
use smolit_assistant.Messages.{approved, denied, SelectedTarget}
use smolit_assistant.Action.{InteractionAction, open_application_action}
use smolit_assistant.Interaction.Selection.{
  is_confidence, normalize_with_fallback_id, cleaned, IsClean, normalize-IsClean,
}
use smolit_assistant.Approvals
use smolit_assistant.Approvals.{Registry, find, sent, unknown_id, register, take, resolve}
use smolit_assistant.Approvals.Delivery.{resolve_twice}
use smolit_assistant.Approvals.Calls.{registers, resolves, calls}
use smolit_assistant.Approvals.Final.{resolve_final}

-- One pending approval.
abbrev one : Registry
one = (register "apr_000001" Approvals.new).1

resolve_twice_example :
    let r' = (resolve "apr_000001" approved one).1 in
    ((resolve "apr_000001" denied r').0 ≡ some unknown_id)
    × ((resolve "apr_000001" denied r').1.channels ≡ r'.channels)
resolve_twice_example = resolve_twice "apr_000001" approved denied one

resolve_final_example :
    let answered =
      resolve "apr_000001" denied (calls (registers "apr_000001" ∷ []) Approvals.new) in
    let later = calls (registers "apr_000001" ∷ resolves "apr_000001" approved ∷ []) answered.1 in
    (answered.0 ≡ none)
    × (get_elem? later.channels 0 ≡ some (sent denied))
    × ((j : String) → find j later.pending ≢ some 0)
unfolding register find Approvals.new
resolve_final_example =
    resolve_final (registers "apr_000001" ∷ [])
      (registers "apr_000001" ∷ resolves "apr_000001" approved ∷ []) "apr_000001" denied 0 refl refl

guard_capability_iff_example :
    (guard_capability (for_capability "interaction.type_text") ≡ allow)
    ↔ ((id : String) × (some "interaction.type_text" ≡ some id) × (is_executable_today id ≡ true))
unfolding for_capability
guard_capability_iff_example = guard_capability_iff (for_capability "interaction.type_text")

sanitize_iff_example :
    (sanitize_capability_id (some " audit.read_recent ") ≡ some "audit.read_recent") ↔ (
      (trim " audit.read_recent " ≡ "audit.read_recent")
      × In "audit.read_recent" known_capability_ids)
sanitize_iff_example = sanitize_iff " audit.read_recent " "audit.read_recent"

abbrev expired_plan : DemoPlan
expired_plan = record (Plan.new "act_000001" "a" "b" "noop" "low" true) {
  status = DemoPlanStatus.expired;
}

terminal_absorbs_example :
    run_statuses expired_plan (DemoPlanStatus.approved ∷ DemoPlanStatus.running ∷ []) ≡ expired_plan
unfolding is_terminal
terminal_absorbs_example =
    terminal_absorbs expired_plan (DemoPlanStatus.approved ∷ DemoPlanStatus.running ∷ []) refl

abbrev fields : AuditFields
fields = with_summary " Open calendar " (with_risk "HIGH" no_fields)

abbrev entries : List Entry
entries =
    (10, AuditKind.action_planned, fields)
    ∷ (11, AuditKind.action_started, fields)
    ∷ (12, AuditKind.action_completed, fields)
    ∷ []

record_all_events_example :
    let (t, events) = record_all (with_capacity 2) entries in
    t.events ≡ last_n (with_capacity 2).capacity ((with_capacity 2).events ++ events)
record_all_events_example = record_all_events (with_capacity 2) entries (with_capacity-IsRing 2)

list_recent_history_example :
    let (t, events) = record_all (with_capacity 2) entries in
    list_recent t (some 1) ≡ last_n (min 1 (clamp_capacity 2)) events
list_recent_history_example = list_recent_history 2 1 entries

abbrev action : InteractionAction
action = record (open_application_action "act_000001" "calendar") { requires_confirmation = true }

abbrev picked : SelectedTarget
picked = record {
  id = " ";
  name = " calendar ";
  role = "window";
  source = "";
  confidence = "discovered";
  matched_hint = some " ";
  app_name = none;
}

normalize-IsClean_example :
    IsClean (cleaned picked "sel_000001")
    × ((cleaned picked "sel_000001").confidence ≡ trim picked.confidence)
unfolding normalize_with_fallback_id trim is_confidence
normalize-IsClean_example = normalize-IsClean picked (cleaned picked "sel_000001") "sel_000001" refl

sanitize-generate_example :
    let (id, n) = generate_correlation_id 1700000000000 41 in
    sanitize_correlation_id (some id) ≡ some id
sanitize-generate_example = sanitize-generate 1700000000000 41 (omega arith)
