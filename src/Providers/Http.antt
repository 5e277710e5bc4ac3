-- ===== src/Providers/Http.antt =====
-- core/src/providers/text.rs: http_request, http_request_with_header, do_http_exchange and
-- check_health. The text of a request is built and the text of an answer is taken apart here.
use smolit_assistant.Base.{
  ℕ, ◌≡◌, refl, String, Bool, true, false, Option, none, some, List, [], ◌∷◌, eqb, len,
  if◌then◌else◌, ◌>>=◌, is_empty, is_whitespace, push_char,
}
use smolit_assistant.Base.Decimal.{decimal}
use smolit_assistant.Base.Failures.{Result, ok, err, and_then, bail, context, required}
use smolit_assistant.Base.Text.Search.{strip_prefix, parse_uint}
use smolit_assistant.Base.Text.Cuts.{◌<>◌}
use smolit_assistant.Config.Values.{u16_bound}
use smolit_assistant.Providers.Outside.{
  Phase, connect, tls_handshake, write, read, Exchange, times_out, fails, server_name_invalid,
  read_as_text, Outside,
}
use smolit_assistant.Providers.Endpoint.{CloudHttpScheme, http, https}

-- `split_once(pattern)`.
unfoldable pub split_at : String → String → Option (String × String)
unfolding strip_prefix
split_at pattern String.[] = none
split_at pattern (String.◌∷◌ c s) = elim (strip_prefix pattern (String.◌∷◌ c s)) [
  | some rest ↦ some ("", rest)
  | none ↦ elim (split_at pattern s) [ none ↦ none | some (a, b) ↦ some (String.◌∷◌ c a, b) ]
]

-- The pieces between white space, empty ones included.
unfoldable pub pieces : String → List String
unfolding is_whitespace
pieces String.[] = "" ∷ []
pieces (String.◌∷◌ c s) =
    let rest = pieces s in if is_whitespace c then "" ∷ rest else push_char c rest

abbrev pub filled : List String → List String
filled [] = []
filled (t ∷ ts) = let rest = filled ts in if is_empty t then rest else t ∷ rest

abbrev pub second : List String → Option String
second [] = none
second (a ∷ []) = none
second (a ∷ b ∷ rest) = some b

-- `split_whitespace().nth(1).and_then(|s| s.parse::<u16>().ok())`.
unfoldable pub status_code : String → Option ℕ
unfolding pieces parse_uint
status_code status_line = second (filled (pieces status_line)) >>= parse_uint u16_bound

unfoldable pub parse_response : String → String → Result (ℕ × String)
unfolding split_at status_code
parse_response name response =
    and_then (required (name <> " HTTP response missing status line") (split_at "\r\n" response))
      λ head.
        and_then
          (required (name <> " HTTP response has no numeric status code") (status_code head.0))
          λ status.
            and_then
              (required (name <> " HTTP response has no body separator")
                (split_at "\r\n\r\n" head.1))
              λ parts. ok (status, parts.1)

unfoldable pub phase_text : Phase → String
phase_text connect = " HTTP connect"
phase_text tls_handshake = " TLS handshake"
phase_text write = " HTTP write"
phase_text read = " HTTP read"

-- What a connection gives, with `name` in front of the messages.
unfoldable pub exchanged : String → Exchange → Result (ℕ × String)
unfolding phase_text parse_response
exchanged name (times_out phase) =
    err ((name <> (phase_text phase <> " timed out")) ∷ "deadline has elapsed" ∷ [])
exchanged name (fails phase reason) = err ((name <> (phase_text phase <> " failed")) ∷ reason ∷ [])
exchanged name server_name_invalid = bail (name <> " TLS server name invalid")
exchanged name (read_as_text decoded) =
    and_then (context (name <> " HTTP response not valid UTF-8") decoded) (parse_response name)

abbrev pub at_least_one : ℕ → ℕ
at_least_one n = if eqb n 0 then 1 else n

abbrev pub body_headers : Option String → String
body_headers none = ""
body_headers (some b) =
    "Content-Type: application/json\r\n" <> ("Content-Length: " <> (decimal (len b) <> "\r\n"))

abbrev pub body_text : Option String → String
body_text none = ""
body_text (some b) = b

unfoldable pub request_text : String → ℕ → String → String → Option String → String
unfolding decimal
request_text host port method path body =
    method
    <> (" "
        <> (path
            <> (" HTTP/1.1\r\nHost: "
                <> (host
                    <> (":"
                        <> (decimal port
                            <> ("\r\nConnection: close\r\n"
                                <> (body_headers body <> ("\r\n" <> body_text body)))))))))

abbrev pub default_port_of : CloudHttpScheme → ℕ
default_port_of http = 80
default_port_of https = 443

abbrev pub is_secure : CloudHttpScheme → Bool
is_secure http = false
is_secure https = true

-- The port is left out of the `Host` header where it is the default one.
unfoldable pub host_header : CloudHttpScheme → String → ℕ → String
unfolding decimal
host_header scheme host port =
    if eqb port (default_port_of scheme)
    then "Host: " <> (host <> "\r\n")
    else "Host: " <> (host <> (":" <> (decimal port <> "\r\n")))

unfoldable pub request_text_with_header :
    CloudHttpScheme → String → ℕ → String → String → Option String → String → String → String
unfolding host_header decimal
request_text_with_header scheme host port method path body header value =
    method
    <> (" "
        <> (path
            <> (" HTTP/1.1\r\n"
                <> (host_header scheme host port
                    <> ("Connection: close\r\n"
                        <> (header
                            <> (": "
                                <> (value
                                    <> ("\r\n"
                                        <> (body_headers body
                                            <> ("\r\n" <> body_text body)))))))))))

abbrev pub is_healthy : Result (ℕ × String) → Bool
is_healthy (ok (status, body)) = eqb status 200
is_healthy (err e) = false

module _ (o : Outside) where
  -- The n-th call outside.
  unfoldable pub http_request :
      ℕ → String → ℕ → String → String → Option String → ℕ → Result (ℕ × String)
  unfolding request_text exchanged
  http_request n host port method path body timeout_secs = exchanged "llamafile" (
      o.exchange n (record {
        secure = false;
        host = host;
        port = port;
        request = request_text host port method path body;
        timeout_secs = at_least_one timeout_secs;
      }))

  unfoldable pub http_request_with_header :
      ℕ
      → CloudHttpScheme
      → String
      → ℕ
      → String
      → String
      → Option String
      → ℕ
      → String
      → String
      → Result (ℕ × String)
  unfolding request_text_with_header exchanged
  http_request_with_header n scheme host port method path body timeout_secs header value =
      exchanged "cloud_http" (
        o.exchange n (record {
          secure = is_secure scheme;
          host = host;
          port = port;
          request = request_text_with_header scheme host port method path body header value;
          timeout_secs = at_least_one timeout_secs;
        }))

  unfoldable pub check_health : ℕ → String → ℕ → ℕ → Bool
  unfolding http_request
  check_health n host port timeout_secs =
      is_healthy (http_request n host port "GET" "/health" none timeout_secs)

response_test : parse_response "llamafile" "HTTP/1.1 200 OK\r\nA: b\r\n\r\n{}" ≡ ok (200, "{}")
unfolding parse_response
response_test = refl
