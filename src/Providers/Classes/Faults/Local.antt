-- ===== src/Providers/Classes/Faults/Local.antt =====
-- core/src/providers/text.rs: the class of each fault of a run of the local HTTP provider.
use smolit_assistant.Base.{ℕ, ◌≡◌, refl, String, true, false, none, some, if◌then◌else◌}
use smolit_assistant.Base.Decimal.{decimal}
use smolit_assistant.Base.Failures.{ok, and_then}
use smolit_assistant.Config.Values.{non_empty}
use smolit_assistant.Providers.Outside.{
  Outside, Call, connect, tls_handshake, write, read, Exchange, JsonField,
}
use smolit_assistant.Providers.Endpoint.{parse_local_endpoint}
use smolit_assistant.Providers.Http.{exchanged, http_request}
use smolit_assistant.Providers.Text.{
  LocalHttpConfigView, or_if_blank, checked_status, in_local_context, run_local_http,
}
use smolit_assistant.Providers.Classes.{classify_text_error}
use smolit_assistant.Providers.Classes.Faults.{
  failed_class, Trouble, stalls, refuses, distrusts, answers, says_nothing, Shows, all_from, fits,
  status_class,
}

-- Without a key; a plain connection has no handshake, whose failure would have no word.
abbrev pub local_class : Trouble → String
local_class (stalls phase) = "timeout"
local_class refuses = "http_connect_failed"
local_class distrusts = "unknown"
local_class (answers status) = "http_error"
local_class says_nothing = "empty_response"

pub data LocalFault : Type 0 where
  switched_off no_endpoint : LocalFault
  meets : Trouble → LocalFault

abbrev pub local_fault_class : LocalFault → String
local_fault_class switched_off = "disabled"
local_fault_class no_endpoint = "not_configured"
local_fault_class (meets t) = local_class t

local_statuses : all_from (fits "local_http" (λ status. "http_error")) 500 100 ≡ true
unfolding all_from classify_text_error decimal
local_statuses = refl

module _ (o : Outside) (n : ℕ) (input : String) where
  -- The local provider is enabled, and its endpoint can be used.
  pub record IsReachable (c : LocalHttpConfigView) : Type 0 where
    pub endpoint : String
    pub parts : String × ℕ × String
    pub enabled : c.enabled ≡ true
    pub has_endpoint : non_empty c.endpoint ≡ some endpoint
    pub parses : parse_local_endpoint endpoint ≡ ok parts

  abbrev pub local_content : LocalHttpConfigView → String → JsonField
  local_content c body = o.read_json body (or_if_blank c.response_field "content")

  local_run :
      (c : LocalHttpConfigView) (x : Exchange)
      → IsReachable c
      → ((call : Call) → o.exchange n call ≡ x)
      → run_local_http o n c input
        ≡ and_then
            (in_local_context (exchanged "llamafile" x))
            (checked_status "local_http" (local_content c))
  unfolding run_local_http http_request
  local_run c x u h = rw (u.enabled, u.has_endpoint, u.parses, h, if◌then◌else◌)

  local_trouble :
      (c : LocalHttpConfigView) (t : Trouble) (x : Exchange)
      → Shows "llamafile" (local_content c) t x
      → failed_class (
          and_then
            (in_local_context (exchanged "llamafile" x))
            (checked_status "local_http" (local_content c)))
        ≡ some (local_class t)
  unfolding exchanged
  local_trouble c (stalls connect) x h = unfold classify_text_error in rw h
  local_trouble c (stalls tls_handshake) x h = unfold classify_text_error in rw h
  local_trouble c (stalls write) x h = unfold classify_text_error in rw h
  local_trouble c (stalls read) x h = unfold classify_text_error in rw h
  local_trouble c refuses x h = unfold classify_text_error in rw h
  local_trouble c distrusts x h = unfold classify_text_error in rw h
  local_trouble c (answers status) x (raw, body, e, p, low, high, other) =
      rw (e, p)
        (status_class "local_http" (λ status. "http_error") (local_content c) status body
          local_statuses low high other)
  local_trouble c says_nothing x (raw, body, e, p, nothing) =
      unfold classify_text_error in rw (e, p, nothing)

  -- The faults of a run, before a connection is made and on it.
  unfoldable pub LocalMeets : LocalHttpConfigView → LocalFault → Type 0
  LocalMeets c switched_off = c.enabled ≡ false
  LocalMeets c no_endpoint = (c.enabled ≡ true) × (non_empty c.endpoint ≡ none)
  LocalMeets c (meets t) =
      IsReachable c
      × ((x : Exchange) × ((call : Call) → o.exchange n call ≡ x)
          × Shows "llamafile" (local_content c) t x)

  -- A run of the local provider that is switched off, has no endpoint, or meets trouble on the connection
  -- fails, and the class of its error is the word for that fault: `http_error` for every status from 100 to
  -- 599 but 200, 401 and 403 included; `timeout` for a phase out of time; `http_connect_failed` for a refused
  -- connection, `empty_response` for an answer without the field, and `unknown` for a failed handshake, which
  -- a plain connection does not have.
  pub run_local_http-class :
      (c : LocalHttpConfigView) (fault : LocalFault)
      → LocalMeets c fault
      → failed_class (run_local_http o n c input) ≡ some (local_fault_class fault)
  unfolding LocalMeets
  run_local_http-class c switched_off off =
      unfold run_local_http classify_text_error in rw (off, if◌then◌else◌)
  run_local_http-class c no_endpoint (on, missing) =
      unfold run_local_http classify_text_error in rw (on, missing, if◌then◌else◌)
  run_local_http-class c (meets t) (usable, (x, h, shows)) =
      rw (local_run c x usable h) (local_trouble c t x shows)
