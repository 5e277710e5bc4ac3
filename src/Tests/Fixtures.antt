-- ===== src/Tests/Fixtures.antt =====
-- A desktop that lists the applications opened on it, a policy, and a core over them
-- (core/src/app.rs).
use smolit_assistant.Base.{String, true, false, List, [], ◌∷◌}
use smolit_assistant.Interaction.{Backend, InteractionPolicy, succeeded, errored}
use smolit_assistant.Action.{verified_result, backend_unsupported}
use smolit_assistant.Audit.Store.{with_capacity}
use smolit_assistant.App.State.{Env, App, new_app}

abbrev pub Desktop : Type 0
Desktop = List String

abbrev pub backend : Backend Desktop
backend = record {
  open_application = λ w action name. (name ∷ w, succeeded (verified_result "opened"));
  focus_window = λ w action title app. (w, errored (backend_unsupported "focus_window"));
  type_text = λ w action text. (w, errored (backend_unsupported "type_text"));
  send_shortcut = λ w action combo. (w, errored (backend_unsupported "send_shortcut"));
}

abbrev pub env : Env Desktop
env = record { backend = backend; clock = λ n. n; to_lowercase = λ s. s }

abbrev pub policy : InteractionPolicy
policy = record {
  enabled = true;
  allow_open_application = true;
  allow_focus_window = false;
  allow_type_text = false;
  allow_shortcuts = false;
  require_confirmation = true;
}

abbrev pub core : App Desktop
core = new_app policy 30 (with_capacity 5) []
