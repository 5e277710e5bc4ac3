-- ===== src/Providers/Command.antt =====
-- core/src/audio/types.rs: splitting a command line; and the external commands of
-- core/src/providers/{stt,tts}.rs.
use smolit_assistant.Base.{
  ℕ, ◌≡◌, refl, String, Bool, true, false, not, ◌&&◌, Option, none, some, List, [], ◌∷◌, ◌++◌, Char,
  code, eqb, if◌then◌else◌, is_empty, is_some, is_whitespace, trim,
}
use smolit_assistant.Base.Failures.{Result, ok, err, and_then, bail, context, required}
use smolit_assistant.Base.Text.Cuts.{◌<>◌}
use smolit_assistant.Providers.Outside.{
  Outside, ProcessOutcome, never_spawned, stdin_not_written, stdin_not_closed, out_of_time,
  not_awaited, exited, Output,
}

pub record AudioFeatureState : Type 0 where
  pub enabled : Bool
  pub available : Bool

abbrev pub new_feature_state : Bool → Bool → AudioFeatureState
new_feature_state enabled available = record { enabled = enabled; available = available }

pub record Splitter : Type 0 where
  pub tokens : List String
  pub current : String
  pub in_single : Bool
  pub in_double : Bool
  pub escape : Bool

abbrev pub push : Char → Splitter → Splitter
push c s = record s { current = s.current <> (String.◌∷◌ c "") }

abbrev pub end_token : Splitter → Splitter
end_token s =
    if is_empty s.current then s else record s { tokens = s.tokens ++ s.current ∷ []; current = "" }

-- One character of the command line.
unfoldable pub split_step : Char → Splitter → Splitter
unfolding is_whitespace
split_step c s =
    if s.escape
    then record (push c s) { escape = false }
    else if eqb (code c) b'\\' && not s.in_single
    then record s { escape = true }
    else if eqb (code c) b'\'' && not s.in_double
    then record s { in_single = not s.in_single }
    else if eqb (code c) b'"' && not s.in_single
    then record s { in_double = not s.in_double }
    else if is_whitespace c && (not s.in_single && not s.in_double)
    then end_token s
    else push c s

unfoldable pub split_all : String → Splitter → Splitter
unfolding split_step
split_all String.[] s = s
split_all (String.◌∷◌ c cs) s = split_all cs (split_step c s)

abbrev pub program_and_args : List String → Option (String × List String)
program_and_args [] = none
program_and_args (program ∷ args) = some (program, args)

unfoldable pub split_command : String → Option (String × List String)
unfolding split_all
split_command cmd =
    program_and_args
      (end_token (
        split_all cmd (record {
          tokens = [];
          current = "";
          in_single = false;
          in_double = false;
          escape = false;
        }))).tokens

split_test :
    split_command "piper --model 'my voice' a\\ b"
    ≡ some ("piper", "--model" ∷ "my voice" ∷ "a b" ∷ [])
unfolding split_command
split_test = refl

-- A provider that runs a command: SttCommandProvider, SttWhisperCppProvider, TtsCommandProvider and
-- TtsPiperProvider.
pub record CommandProvider : Type 0 where
  pub enabled : Bool
  pub command : Option String
  pub timeout_seconds : ℕ

abbrev pub is_ready : CommandProvider → Bool
is_ready p = p.enabled && is_some p.command

abbrev pub feature_state : CommandProvider → AudioFeatureState
feature_state p = new_feature_state p.enabled (is_some p.command)

unfoldable pub exit_failure : String → String → Output → List String
unfolding trim
exit_failure axis program output =
    (axis
      <> (" command `"
          <> (program
              <> ("` failed with status "
                  <> (output.status
                      <> (": "
                          <> (if is_empty (trim output.stderr_lossy)
                              then "process exited without error output"
                              else trim output.stderr_lossy)))))))
    ∷ []

abbrev recognized_or_bail : String → String → Result String
recognized_or_bail program recognized =
    if is_empty recognized
    then bail ("STT command `" <> (program <> "` returned no recognized text"))
    else ok recognized

unfoldable pub stt_output : String → Output → Result String
unfolding exit_failure trim
stt_output program output =
    if output.success
    then and_then (context "STT stdout was not valid UTF-8" output.stdout)
        (λ stdout. recognized_or_bail program (trim stdout))
    else err (exit_failure "STT" program output)

-- `Command::output` gives the first two kinds of outcome, or an error of the operating system.
unfoldable pub stt_answer : String → ProcessOutcome → Result String
unfolding stt_output
stt_answer program out_of_time = err ("STT command timed out" ∷ "deadline has elapsed" ∷ [])
stt_answer program (exited output) = stt_output program output
stt_answer program (never_spawned reason) =
    err (("failed to spawn STT command `" <> (program <> "`")) ∷ reason ∷ [])
stt_answer program (stdin_not_written reason) =
    err (("failed to spawn STT command `" <> (program <> "`")) ∷ reason ∷ [])
stt_answer program (stdin_not_closed reason) =
    err (("failed to spawn STT command `" <> (program <> "`")) ∷ reason ∷ [])
stt_answer program (not_awaited reason) =
    err (("failed to spawn STT command `" <> (program <> "`")) ∷ reason ∷ [])

unfoldable pub tts_answer : String → ProcessOutcome → Result (Unit {0})
unfolding exit_failure
tts_answer program (never_spawned reason) =
    err (("failed to spawn TTS command `" <> (program <> "`")) ∷ reason ∷ [])
tts_answer program (stdin_not_written reason) =
    err ("failed to write text to TTS stdin" ∷ reason ∷ [])
tts_answer program (stdin_not_closed reason) = err ("failed to close TTS stdin" ∷ reason ∷ [])
tts_answer program out_of_time = err ("TTS command timed out" ∷ "deadline has elapsed" ∷ [])
tts_answer program (not_awaited reason) = err ("failed to await TTS command" ∷ reason ∷ [])
tts_answer program (exited output) =
    if output.success then ok tt else err (exit_failure "TTS" program output)

module _ (o : Outside) where
  -- The n-th call outside.
  unfoldable pub run_external_stt_command : ℕ → CommandProvider → Result String
  unfolding split_command stt_answer
  run_external_stt_command n p =
      if p.enabled
      then and_then (required "STT command is not configured" p.command) (λ cmd.
        and_then (required "STT command is empty after parsing" (split_command cmd))
          (λ parts. stt_answer parts.0 (o.process n parts.0 parts.1 none p.timeout_seconds)))
      else bail "STT is disabled"

  unfoldable pub run_external_tts_command : ℕ → CommandProvider → String → Result (Unit {0})
  unfolding split_command tts_answer
  run_external_tts_command n p text =
      if p.enabled
      then and_then (required "TTS command is not configured" p.command) (λ cmd.
        and_then (required "TTS command is empty after parsing" (split_command cmd))
          (λ parts. tts_answer parts.0 (o.process n parts.0 parts.1 (some text) p.timeout_seconds)))
      else bail "TTS is disabled"
