-- ===== src/Providers/Outside.antt =====
-- What the providers of core/src/providers/ call outside the core: network connections, processes, the
-- clock and serde_json. The n-th call of a run is answered by the n-th entry of each table.
use smolit_assistant.Base.{ℕ, String, Bool, Option, List}
use smolit_assistant.Base.Failures.{Result}

pub data Phase : Type 0 where
  connect tls_handshake write read : Phase

-- One connection: a text is sent and the answer read to its end, unless a phase runs out of time or
-- fails. `read_as_text` holds the answer, or the reason why it is no UTF-8.
pub data Exchange : Type 0 where
  times_out : Phase → Exchange
  fails : Phase → String → Exchange
  server_name_invalid : Exchange
  read_as_text : Result String → Exchange

pub record Call : Type 0 where
  pub secure : Bool
  pub host : String
  pub port : ℕ
  pub request : String
  pub timeout_secs : ℕ

pub data Json : Type 0 where
  text : String → Json
  number : ℕ → Json
  flag : Bool → Json

-- `parsed.get(field)` of a body: not JSON (with the reason), no text under that name, or a text.
pub data JsonField : Type 0 where
  not_json : String → JsonField
  no_text : JsonField
  field_text : String → JsonField

pub record Output : Type 0 where
  pub success : Bool
  pub status : String
  pub stdout : Result String
  pub stderr : Result String
  pub stderr_lossy : String

-- What became of a started program.
pub data ProcessOutcome : Type 0 where
  never_spawned : String → ProcessOutcome
  stdin_not_written : String → ProcessOutcome
  stdin_not_closed : String → ProcessOutcome
  out_of_time : ProcessOutcome
  not_awaited : String → ProcessOutcome
  exited : Output → ProcessOutcome

-- `start` starts the llamafile server, and answers with the kind of the error if there is one;
-- `try_wait` answers with the status of a server that has ended. `instant` reads the clock in
-- milliseconds.
pub record Outside : Type 0 where
  pub exchange : ℕ → Call → Exchange
  pub process : ℕ → String → List String → Option String → ℕ → ProcessOutcome
  pub start : ℕ → String → ℕ → Option String
  pub try_wait : ℕ → Option String
  pub instant : ℕ → ℕ
  pub encode_json : List (String × Json) → String
  pub read_json : String → String → JsonField
