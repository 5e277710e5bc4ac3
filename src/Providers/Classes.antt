-- ===== src/Providers/Classes.antt =====
-- core/src/providers/{text,stt,tts}.rs: `classify_error`. An `anyhow::Error` is the list of its
-- messages, the outermost first.
pub mod Faults
use smolit_assistant.Base.{
  ◌≡◌, refl, String, Bool, ◌&&◌, ◌||◌, Option, none, some, List, [], ◌∷◌, if◌then◌else◌, any,
  or_else, or_option, to_ascii_lowercase,
}
use smolit_assistant.Base.Text.Search.{contains}
use smolit_assistant.Providers.Chain.{join}

-- `if joined.contains(a) || joined.contains(b) { return class; }`.
abbrev pub Rule : Type 0
Rule = List String × String

abbrev pub has : String → String → Bool
has joined needle = contains joined needle

-- The class of the first rule that fits.
unfoldable pub first_class : String → List Rule → Option String
first_class joined [] = none
first_class joined ((needles, class) ∷ rules) =
    let rest = first_class joined rules in if any (has joined) needles then some class else rest

unfoldable pub joined_lowercase : List String → String
unfolding join to_ascii_lowercase
joined_lowercase chain = to_ascii_lowercase (join " | " chain)

abbrev pub refusal_rules : List Rule
refusal_rules = ("is disabled" ∷ [], "disabled") ∷ ("not configured" ∷ [], "not_configured") ∷ []

abbrev pub secret_rules : List Rule
secret_rules = ("secret is not set" ∷ [], "secret_missing") ∷ []

abbrev pub certificate_rules : List Rule
certificate_rules =
    ("unknownissuer" ∷ "unknown issuer" ∷ [], "cert_untrusted")
    ∷ (
      "notvalidyet" ∷ "expired" ∷ "badsignature" ∷ "invalidcertificate" ∷ "notvaliddns" ∷ "revoked"
          ∷ [],
      "cert_invalid",
    )
    ∷ []

abbrev pub endpoint_rules : List Rule
endpoint_rules =
    ("endpoint must start with http://" ∷ [], "endpoint_scheme_unsupported")
    ∷ ("endpoint url is not parseable" ∷ [], "endpoint_unparseable")
    ∷ ("timed out" ∷ [], "timeout")
    ∷ ("http connect" ∷ [], "http_connect_failed")
    ∷ []

abbrev pub unauthorized_rules : List Rule
unauthorized_rules =
    ("http returned status 401" ∷ "http returned status 403" ∷ [], "unauthorized") ∷ []

abbrev pub response_rules : List Rule
response_rules =
    ("http returned status" ∷ [], "http_error")
    ∷ ("returned no content" ∷ [], "empty_response")
    ∷ ("is not valid json" ∷ "not valid utf-8" ∷ [], "invalid_response")
    ∷ []

abbrev pub startup_rules : List Rule
startup_rules =
    ("runtime is not yet implemented" ∷ [], "not_implemented")
    ∷ ("readiness check timed out" ∷ [], "startup_timeout")
    ∷ ("exited during startup" ∷ [], "process_exit_early")
    ∷ ("process spawn failed" ∷ [], "process_missing")
    ∷ []

abbrev pub late_rules : List Rule
late_rules = ("timed out" ∷ [], "timeout") ∷ ("http connect" ∷ [], "http_connect_failed") ∷ []

abbrev pub general_rules : List Rule
general_rules =
    ("timed out" ∷ [], "timeout")
    ∷ ("failed to spawn" ∷ "no such file" ∷ [], "process_missing")
    ∷ ("returned no output" ∷ [], "empty_response")
    ∷ ("not valid utf-8" ∷ [], "invalid_response")
    ∷ ("failed with status" ∷ [], "exit_nonzero")
    ∷ []

unfoldable pub tls_class : String → Option String
unfolding first_class
tls_class joined =
    if has joined "tls handshake" || (has joined "handshake" && has joined "tls")
    then some (or_else (first_class joined certificate_rules) "tls_handshake_failed")
    else none

unfoldable pub cloud_http_class : String → Option String
unfolding first_class tls_class
cloud_http_class joined =
    if has joined "cloud_http"
    then or_option (first_class joined refusal_rules) (
        or_option (first_class joined secret_rules) (
          or_option (tls_class joined) (
            or_option (first_class joined endpoint_rules) (
              or_option (first_class joined unauthorized_rules)
                (first_class joined response_rules)))))
    else none

unfoldable pub local_http_class : String → Option String
unfolding first_class
local_http_class joined =
    if has joined "local_http"
    then or_option (first_class joined refusal_rules)
        (or_option (first_class joined endpoint_rules) (first_class joined response_rules))
    else none

unfoldable pub llamafile_class : String → Option String
unfolding first_class
llamafile_class joined =
    if has joined "llamafile"
    then or_option (first_class joined refusal_rules) (
        or_option (first_class joined startup_rules)
          (or_option (first_class joined response_rules) (first_class joined late_rules)))
    else none

unfoldable pub classify_text_error : List String → String
unfolding joined_lowercase cloud_http_class local_http_class llamafile_class first_class
classify_text_error chain =
    let joined = joined_lowercase chain in
    or_else
      (or_option (cloud_http_class joined) (
        or_option (local_http_class joined)
          (or_option (llamafile_class joined) (first_class joined general_rules))))
      "unknown"

abbrev pub stt_rules : List Rule
stt_rules =
    ("stt is disabled" ∷ [], "disabled")
    ∷ (
      "stt command is not configured" ∷ "stt command is empty after parsing" ∷ [],
      "not_configured",
    )
    ∷ ("timed out" ∷ [], "timeout")
    ∷ ("failed to spawn" ∷ "no such file" ∷ [], "process_missing")
    ∷ ("not valid utf-8" ∷ [], "invalid_response")
    ∷ ("returned no recognized text" ∷ [], "empty_response")
    ∷ ("failed with status" ∷ [], "exit_nonzero")
    ∷ []

unfoldable pub classify_stt_error : List String → String
unfolding joined_lowercase first_class
classify_stt_error chain = or_else (first_class (joined_lowercase chain) stt_rules) "unknown"

abbrev pub tts_rules : List Rule
tts_rules =
    ("tts is disabled" ∷ [], "disabled")
    ∷ (
      "tts command is not configured" ∷ "tts command is empty after parsing" ∷ [],
      "not_configured",
    )
    ∷ ("timed out" ∷ [], "timeout")
    ∷ ("failed to spawn" ∷ "no such file" ∷ [], "process_missing")
    ∷ ("failed to write text to tts stdin" ∷ "failed to close tts stdin" ∷ [], "stdin_write_failed")
    ∷ ("failed with status" ∷ [], "exit_nonzero")
    ∷ []

unfoldable pub classify_tts_error : List String → String
unfolding joined_lowercase first_class
classify_tts_error chain = or_else (first_class (joined_lowercase chain) tts_rules) "unknown"

tls_test :
    classify_text_error
      ("cloud_http TLS handshake failed" ∷ "invalid peer certificate: UnknownIssuer" ∷ [])
    ≡ "cert_untrusted"
unfolding classify_text_error
tls_test = refl

connect_test :
    classify_text_error ("local_http HTTP connect failed" ∷ "llamafile HTTP connect failed" ∷ [])
    ≡ "http_connect_failed"
unfolding classify_text_error
connect_test = refl
