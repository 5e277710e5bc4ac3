-- ===== src/App/Live/Probes.antt =====
-- core/src/app.rs: the probes of the settings (probe_llamafile, probe_audio_command, probe_local_http,
-- probe_cloud_http).
pub mod Honest
use smolit_assistant.Base.{
  ℕ, ◌+◌, String, Bool, true, false, not, Option, none, some, List, [], ◌∷◌, ◌==◌, ◌&&◌, ◌||◌,
  if◌then◌else◌, is_empty, trim, is_some, or_else, leb, ltb, eqb, min, to_ascii_lowercase,
}
use smolit_assistant.Base.Decimal.{decimal}
use smolit_assistant.Base.Failures.{Result, ok, err, display_error}
use smolit_assistant.Base.Text.Cuts.{◌<>◌}
use smolit_assistant.Base.Text.Search.{contains}
use smolit_assistant.Config.{LocalHttpConfig, CloudHttpConfig}
use smolit_assistant.Messages.{SettingsProbeResultPayload}
use smolit_assistant.Providers.Classes.{classify_text_error}
use smolit_assistant.Providers.Command.{split_command}
use smolit_assistant.Providers.Endpoint.{
  CloudHttpScheme, parse_local_endpoint, parse_cloud_endpoint,
}
use smolit_assistant.Providers.Http.{http_request_with_header, at_least_one}
use smolit_assistant.Providers.Llamafile.{lifecycle_str}
use smolit_assistant.Providers.Outside.{Outside, Exchange, connect, times_out, fails}
use smolit_assistant.Providers.Text.{validate_auth_header_name}
use smolit_assistant.Providers.Axes.{text_kinds, stt_kinds, tts_kinds, llamafile_lifecycle}
use smolit_assistant.App.Live.{Live}
use smolit_assistant.App.Live.Status.{is_present, lists, only_if, lifecycle_text}

-- What the file system says of a path.
pub data Metadata : Type 0 where
  no_file : Metadata
  other_than_file : Metadata
  regular_file : Bool → Metadata

-- Whether the probe succeeds, its class and its message.
abbrev pub Verdict : Type 0
Verdict = Bool × String × String

abbrev pub build :
    String → Option String → Bool → Bool → Bool → Verdict → SettingsProbeResultPayload
build axis lifecycle in_chain enabled configured (good, class, message) = record {
  axis = axis;
  ok = good;
  class = class;
  message = message;
  lifecycle = lifecycle;
  in_chain = in_chain;
  enabled = enabled;
  configured = configured;
}

-- The first three tests of every probe: `what` has an entry in the chain, a flag and a value.
abbrev pub preflight : String → String → String → Bool → Bool → Bool → Verdict → Verdict
preflight missing off unset in_chain enabled present further =
    if not in_chain
    then (false, "not_in_chain", missing)
    else if not enabled
    then (false, "disabled", off)
    else if not present
    then (false, "not_configured", unset)
    else further

abbrev pub trimmed : Option String → String
trimmed none = ""
trimmed (some v) = trim v

abbrev pub file_verdict : String → String → String → String → Metadata → Verdict
file_verdict missing other fixed good no_file = (false, "path_missing", missing)
file_verdict missing other fixed good other_than_file = (false, "path_not_file", other)
file_verdict missing other fixed good (regular_file executable) =
    if executable then (true, "ok", good) else (false, "path_not_executable", fixed)

unfoldable pub probe_llamafile : (String → Metadata) → Live → SettingsProbeResultPayload
unfolding llamafile_lifecycle lifecycle_str trim
probe_llamafile stat l =
    let cfg = l.live_llamafile in
    let in_chain = lists "llamafile_local" (text_kinds l.text_provider) in
    build "llamafile" (only_if in_chain (lifecycle_text (llamafile_lifecycle l.text_provider)))
      in_chain cfg.enabled (cfg.enabled && is_present cfg.path)
      (preflight "llamafile_local is not in the configured text provider chain"
        "llamafile_local is disabled (master flag off)"
        "llamafile_local is enabled but has no binary path configured" in_chain cfg.enabled
        (is_present cfg.path)
        (file_verdict "configured binary path does not exist"
          "configured binary path is not a regular file"
          "configured binary is present but not executable"
          "llamafile_local looks ready (binary present, executable)" (stat (trimmed cfg.path))))

abbrev pub command_verdict : (String → Metadata) → Option (String × List String) → Verdict
command_verdict stat none =
    (false, "command_unparseable", "configured command is empty after parsing")
command_verdict stat (some (program, args)) =
    file_verdict "configured command binary does not exist"
      "configured command path is not a regular file"
      "configured command binary is present but not executable"
      "command looks ready (binary present, executable)" (stat program)

unfoldable pub probe_audio_command :
    (String → Metadata) → String → Bool → Option String → List String → SettingsProbeResultPayload
unfolding split_command trim
probe_audio_command stat axis enabled command chain =
    let in_chain = lists "command" chain in
    build axis none in_chain enabled (enabled && is_present command) (
      preflight "command kind is not in the configured provider chain"
        "axis is disabled (master flag off)" "axis is enabled but has no command configured"
        in_chain enabled (is_present command)
        (command_verdict stat (split_command (trimmed command))))

unfoldable pub probe_stt : (String → Metadata) → Live → SettingsProbeResultPayload
unfolding probe_audio_command
probe_stt stat l =
    probe_audio_command stat "stt" l.live_audio.stt_enabled l.live_audio.stt_cmd (stt_kinds l.stt)

unfoldable pub probe_tts : (String → Metadata) → Live → SettingsProbeResultPayload
unfolding probe_audio_command
probe_tts stat l =
    probe_audio_command stat "tts" l.live_audio.tts_enabled l.live_audio.tts_cmd (tts_kinds l.tts)

-- A connection is opened, and nothing is sent on it.
abbrev connect_verdict : Exchange → Verdict
connect_verdict (times_out connect) =
    (false, "timeout", "tcp connect to configured endpoint timed out")
connect_verdict (fails connect reason) =
    (false, "http_connect_failed", "tcp connect to configured endpoint failed")
connect_verdict _ = (true, "ok", "local_http endpoint reachable (tcp connect succeeded)")

-- `to_string` of an error: its outermost message.
abbrev pub outermost : List String → String
outermost [] = ""
outermost (m ∷ ms) = m

abbrev probe_secs : ℕ → ℕ
probe_secs timeout = min (at_least_one timeout) 30

abbrev local_endpoint_verdict : List String → Verdict
local_endpoint_verdict e =
    if contains (outermost e) "must start with http://"
    then (
      false, "endpoint_scheme_unsupported",
      "endpoint must start with http:// (https:// is not supported in this build)",
    )
    else (false, "endpoint_unparseable", "endpoint url is not parseable")

abbrev has_one : String → String → String → Bool
has_one text a b = contains text a || contains text b

abbrev cloud_endpoint_verdict : List String → Verdict
cloud_endpoint_verdict e =
    if has_one (to_ascii_lowercase (outermost e)) "missing http:// or https://" "must start with"
    then (false, "endpoint_scheme_unsupported", "endpoint must start with http:// or https://")
    else (false, "endpoint_unparseable", "endpoint url is not parseable")

abbrev status_verdict : ℕ → Verdict
status_verdict status =
    if leb 200 status && ltb status 300
    then (true, "ok", "cloud_http endpoint reachable and auth accepted (HEAD returned 2xx)")
    else if eqb status 401 || eqb status 403
    then (
      false, "unauthorized",
      "cloud_http endpoint rejected the stored api key (HEAD returned 401/403)",
    )
    else (false, "http_error", "cloud_http endpoint returned HTTP status " <> decimal status)

abbrev class_verdict : String → Verdict
class_verdict class =
    if class == "timeout"
    then (false, "timeout", "cloud_http request to configured endpoint timed out")
    else if class == "http_connect_failed"
    then (false, "http_connect_failed", "tcp connect to configured endpoint failed")
    else if class == "tls_handshake_failed"
    then (false, "tls_handshake_failed", "tls handshake to configured endpoint failed")
    else if class == "cert_untrusted"
    then (
      false, "cert_untrusted", "tls server certificate is not trusted by the configured root store",
    )
    else if class == "cert_invalid"
    then (
      false, "cert_invalid",
      "tls server certificate failed validation (expired / not yet valid / hostname mismatch / bad signature)",
    )
    else (false, "http_error", "cloud_http probe request failed")

abbrev head_verdict : Result (ℕ × String) → Verdict
head_verdict (ok (status, body)) = status_verdict status
head_verdict (err e) = class_verdict (classify_text_error e)

module _ (o : Outside) where
  abbrev pub connected : ℕ → ℕ → Result (String × ℕ × String) → Verdict
  connected n timeout (err e) = local_endpoint_verdict e
  connected n timeout (ok (host, port, path)) = connect_verdict (
      o.exchange n (record {
        secure = false;
        host = host;
        port = port;
        request = "";
        timeout_secs = probe_secs timeout;
      }))

  -- The n-th call outside.
  unfoldable pub probe_local_http : ℕ → Live → SettingsProbeResultPayload
  unfolding parse_local_endpoint trim
  probe_local_http n l =
      let cfg = l.live_local_http in
      let in_chain = lists "local_http" (text_kinds l.text_provider) in
      build "local_http" none in_chain cfg.enabled (cfg.enabled && is_present cfg.endpoint) (
        preflight "local_http is not in the configured text provider chain"
          "local_http is disabled (master flag off)"
          "local_http is enabled but has no endpoint configured" in_chain cfg.enabled
          (is_present cfg.endpoint)
          (connected n cfg.request_timeout_seconds (parse_local_endpoint (trimmed cfg.endpoint))))

  abbrev asked : ℕ → ℕ → String → CloudHttpScheme × String × ℕ × String → Result String → Verdict
  asked n timeout key (scheme, host, port, path) (err e) =
      (false, "not_configured", "cloud_http auth header name is invalid")
  asked n timeout key (scheme, host, port, path) (ok auth_header) = head_verdict (
      http_request_with_header o n scheme host port "HEAD" path none (probe_secs timeout)
        auth_header ("Bearer " <> key))

  abbrev reached :
      ℕ → CloudHttpConfig → String → Result (CloudHttpScheme × String × ℕ × String) → Verdict
  reached n cfg key (err e) = cloud_endpoint_verdict e
  reached n cfg key (ok parts) =
      asked n cfg.request_timeout_seconds key parts (validate_auth_header_name cfg.auth_header)

  abbrev pub with_key : ℕ → CloudHttpConfig → Option String → Verdict
  with_key n cfg none = (false, "secret_missing", "cloud_http is enabled but no api key is stored")
  with_key n cfg (some key) = reached n cfg key (parse_cloud_endpoint (trimmed cfg.endpoint))

  unfoldable pub probe_cloud_http : ℕ → Live → SettingsProbeResultPayload
  unfolding parse_cloud_endpoint http_request_with_header validate_auth_header_name
      classify_text_error to_ascii_lowercase trim decimal
  probe_cloud_http n l =
      let cfg = l.live_cloud_http in
      let in_chain = lists "cloud_http" (text_kinds l.text_provider) in
      build "cloud_http" none in_chain cfg.enabled
        ((cfg.enabled && is_present cfg.endpoint) && is_some l.cloud_http_api_key)
        (preflight "cloud_http is not in the configured text provider chain"
          "cloud_http is disabled (master flag off)"
          "cloud_http is enabled but has no endpoint configured" in_chain cfg.enabled
          (is_present cfg.endpoint) (with_key n cfg l.cloud_http_api_key))
