-- ===== src/Providers/Text.antt =====
-- core/src/providers/text.rs: the ABrain, local HTTP and cloud HTTP providers.
use smolit_assistant.Base.{
  ℕ, String, Bool, false, ◌||◌, Option, none, some, List, [], ◌∷◌, eqb, if◌then◌else◌, is_empty,
  trim, to_ascii_lowercase,
}
use smolit_assistant.Base.Decimal.{decimal}
use smolit_assistant.Base.Failures.{Result, ok, err, and_then, bail, context, required}
use smolit_assistant.Base.Text.Search.{contains, has_char}
use smolit_assistant.Base.Text.Cuts.{◌<>◌}
use smolit_assistant.Config.Values.{non_empty}
use smolit_assistant.Providers.Endpoint.{
  CloudHttpScheme, parse_local_endpoint, parse_cloud_endpoint,
}
use smolit_assistant.Providers.Outside.{
  Outside, Json, text, flag, JsonField, not_json, no_text, field_text, ProcessOutcome,
  never_spawned, stdin_not_written, stdin_not_closed, out_of_time, not_awaited, exited, Output,
}
use smolit_assistant.Providers.Http.{http_request, http_request_with_header, at_least_one}

abbrev pub abrain_default_timeout_secs : ℕ
abrain_default_timeout_secs = 30

pub record AbrainCliProvider : Type 0 where
  pub command : String
  pub timeout_secs : ℕ

abbrev pub new_abrain : String → AbrainCliProvider
new_abrain command = record { command = command; timeout_secs = abrain_default_timeout_secs }

pub record LocalHttpConfigView : Type 0 where
  pub enabled : Bool
  pub endpoint : Option String
  pub request_timeout_seconds : ℕ
  pub prompt_field : String
  pub response_field : String

pub record CloudHttpConfigView : Type 0 where
  pub enabled : Bool
  pub endpoint : Option String
  pub model : Option String
  pub request_timeout_seconds : ℕ
  pub prompt_field : String
  pub response_field : String
  pub auth_header : String
  pub api_key : Option String

abbrev pub or_if_blank : String → String → String
or_if_blank value default = if is_empty (trim value) then default else value

-- The text of the response's field, which must not be empty.
abbrev pub content_text : String → JsonField → Result String
content_text name (not_json reason) = err ((name <> " response is not valid JSON") ∷ reason ∷ [])
content_text name no_text = bail (name <> " returned no content")
content_text name (field_text t) =
    if is_empty (trim t) then bail (name <> " returned no content") else ok (trim t)

abbrev pub checked_status : String → (String → JsonField) → ℕ × String → Result String
checked_status name look (status, body) =
    if eqb status 200
    then content_text name (look body)
    else bail (name <> (" HTTP returned status " <> decimal status))

abbrev failure_detail : String → String
failure_detail stderr =
    if is_empty (trim stderr) then "process exited without error output" else trim stderr

abbrev nonempty_response : String → String → Result String
nonempty_response command response =
    if is_empty response
    then bail ("ABrain command `" <> (command <> "` returned no output"))
    else ok response

unfoldable pub abrain_output : String → Output → Result String
unfolding trim
abrain_output command output =
    and_then (context "ABrain stdout was not valid UTF-8" output.stdout) λ stdout.
      and_then (context "ABrain stderr was not valid UTF-8" output.stderr) λ stderr.
        if output.success
        then nonempty_response command (trim stdout)
        else bail (
            "ABrain command `"
            <> (command
                <> ("` failed with status " <> (output.status <> (": " <> failure_detail stderr)))))

-- The program's standard input is not written, so that its two errors do not arise.
unfoldable pub abrain_answer : String → ProcessOutcome → Result String
unfolding abrain_output
abrain_answer command out_of_time = err ("ABrain task timed out" ∷ "deadline has elapsed" ∷ [])
abrain_answer command (exited output) = abrain_output command output
abrain_answer command (never_spawned reason) =
    err (("failed to spawn ABrain command `" <> (command <> "`")) ∷ reason ∷ [])
abrain_answer command (stdin_not_written reason) =
    err (("failed to spawn ABrain command `" <> (command <> "`")) ∷ reason ∷ [])
abrain_answer command (stdin_not_closed reason) =
    err (("failed to spawn ABrain command `" <> (command <> "`")) ∷ reason ∷ [])
abrain_answer command (not_awaited reason) =
    err (("failed to spawn ABrain command `" <> (command <> "`")) ∷ reason ∷ [])

abbrev outer_message : List String → String
outer_message [] = ""
outer_message (m ∷ ms) = m

-- The context that the local provider puts on an error of the connection.
abbrev pub local_context : String → String
local_context message =
    if contains message "connect timed out" || contains message "connect failed"
    then "local_http HTTP connect failed"
    else if contains message "timed out"
    then "local_http request timed out"
    else "local_http HTTP request failed"

abbrev pub cloud_context : String → String
cloud_context message =
    if contains message "tls handshake"
    then "cloud_http TLS handshake failed"
    else if contains message "connect timed out" || contains message "connect failed"
    then "cloud_http HTTP connect failed"
    else if contains message "timed out"
    then "cloud_http request timed out"
    else "cloud_http HTTP request failed"

abbrev pub in_local_context : Result (ℕ × String) → Result (ℕ × String)
in_local_context (ok r) = ok r
in_local_context (err e) = err (local_context (outer_message e) ∷ e)

unfoldable pub in_cloud_context : Result (ℕ × String) → Result (ℕ × String)
unfolding to_ascii_lowercase
in_cloud_context (ok r) = ok r
in_cloud_context (err e) = err (cloud_context (to_ascii_lowercase (outer_message e)) ∷ e)

unfoldable pub validate_auth_header_name : String → Result String
unfolding trim has_char
validate_auth_header_name name =
    if is_empty (trim name)
    then bail "cloud_http auth header name is empty"
    else if has_char b'\r' (trim name) || (has_char b'\n' (trim name) || has_char b':' (trim name))
    then bail "cloud_http auth header name contains invalid characters"
    else ok (trim name)

abbrev model_entry : Option String → List (String × Json)
model_entry none = []
model_entry (some model) = ("model", text model) ∷ []

module _ (o : Outside) where
  -- `o.process`: the n-th call outside.
  unfoldable pub run_abrain : ℕ → AbrainCliProvider → String → Result String
  unfolding abrain_answer
  run_abrain n p input =
      abrain_answer p.command
        (o.process n p.command ("task" ∷ "run" ∷ input ∷ []) none p.timeout_secs)

  abbrev post_local : ℕ → LocalHttpConfigView → String → String × ℕ × String → Result String
  post_local n config input (host, port, path) =
      and_then
        (in_local_context (
          http_request o n host port "POST" path
            (some (
              o.encode_json (
                (or_if_blank config.prompt_field "prompt", text input)
                ∷ ("stream", flag false)
                ∷ [])))
            (at_least_one config.request_timeout_seconds)))
        (checked_status "local_http"
          (λ body. o.read_json body (or_if_blank config.response_field "content")))

  unfoldable pub run_local_http : ℕ → LocalHttpConfigView → String → Result String
  unfolding non_empty parse_local_endpoint http_request trim decimal
  run_local_http n config input =
      if config.enabled
      then and_then
          (required
            "provider local_http is enabled but not configured (set SMOLIT_LOCAL_HTTP_ENDPOINT)"
            (non_empty config.endpoint))
          (λ endpoint. and_then (parse_local_endpoint endpoint) (post_local n config input))
      else bail "provider local_http is disabled (set SMOLIT_LOCAL_HTTP_ENABLED=1 to enable)"

  abbrev post_cloud :
      ℕ
      → CloudHttpConfigView
      → String
      → String
      → String
      → CloudHttpScheme × String × ℕ × String
      → Result String
  post_cloud n config input api_key auth_header (scheme, host, port, path) =
      and_then
        (in_cloud_context (
          http_request_with_header o n scheme host port "POST" path
            (some (
              o.encode_json (
                (or_if_blank config.prompt_field "prompt", text input)
                ∷ ("stream", flag false)
                ∷ model_entry (non_empty config.model))))
            (at_least_one config.request_timeout_seconds) auth_header ("Bearer " <> api_key)))
        (checked_status "cloud_http"
          (λ body. o.read_json body (or_if_blank config.response_field "content")))

  unfoldable pub run_cloud_http : ℕ → CloudHttpConfigView → String → Result String
  unfolding non_empty parse_cloud_endpoint http_request_with_header validate_auth_header_name
      in_cloud_context trim decimal
  run_cloud_http n config input =
      if config.enabled
      then and_then
          (required
            "provider cloud_http is enabled but not configured (set SMOLIT_CLOUD_HTTP_ENDPOINT)"
            (non_empty config.endpoint))
          (λ endpoint.
            and_then (required "provider cloud_http secret is not set" (non_empty config.api_key))
              λ api_key. and_then (validate_auth_header_name config.auth_header) λ auth_header.
                and_then (parse_cloud_endpoint endpoint)
                  (post_cloud n config input api_key auth_header))
      else bail "provider cloud_http is disabled (set SMOLIT_CLOUD_HTTP_ENABLED=1 to enable)"
