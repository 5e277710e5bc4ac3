-- ===== src/Kinds.antt =====
-- Vocabulary that several parts share: the interaction kinds (core/src/interaction/action.rs), the
-- demo plan kinds (core/src/actions/plan.rs), the risk levels and approval sources
-- (core/src/approvals/request.rs).
use smolit_assistant.Base.{String, List, [], ◌∷◌}

pub data InteractionKind : Type 0 where
  open_application focus_window type_text send_shortcut noop unknown : InteractionKind

unfoldable pub kind_str : InteractionKind → String
kind_str open_application = "open_application"
kind_str focus_window = "focus_window"
kind_str type_text = "type_text"
kind_str send_shortcut = "send_shortcut"
kind_str noop = "noop"
kind_str unknown = "unknown"

abbrev pub demo_kind_echo : String
demo_kind_echo = "demo_echo"

abbrev pub demo_kind_wait : String
demo_kind_wait = "demo_wait"

abbrev pub demo_kind_noop : String
demo_kind_noop = "noop"

abbrev pub known_demo_kinds : List String
known_demo_kinds = demo_kind_echo ∷ demo_kind_wait ∷ demo_kind_noop ∷ []

abbrev pub default_demo_kind : String
default_demo_kind = demo_kind_noop

abbrev pub risk_low : String
risk_low = "low"

abbrev pub risk_medium : String
risk_medium = "medium"

abbrev pub risk_high : String
risk_high = "high"

abbrev pub known_risks : List String
known_risks = risk_low ∷ risk_medium ∷ risk_high ∷ []

abbrev pub source_user : String
source_user = "user"

abbrev pub source_timeout : String
source_timeout = "timeout"

abbrev pub source_system : String
source_system = "system"
