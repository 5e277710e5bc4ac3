-- ===== src/Providers/Classes/Faults/Cloud.antt =====
-- core/src/providers/text.rs: the class of each fault of a run of the cloud provider.
use smolit_assistant.Base.{ℕ, ◌≡◌, refl, String, true, false, ◌||◌, none, some, eqb, if◌then◌else◌}
use smolit_assistant.Base.Decimal.{decimal}
use smolit_assistant.Base.Failures.{ok, and_then}
use smolit_assistant.Config.Values.{non_empty}
use smolit_assistant.Providers.Outside.{
  Outside, Call, connect, tls_handshake, write, read, Exchange, JsonField,
}
use smolit_assistant.Providers.Endpoint.{CloudHttpScheme, parse_cloud_endpoint}
use smolit_assistant.Providers.Http.{exchanged, http_request_with_header}
use smolit_assistant.Providers.Text.{
  CloudHttpConfigView, or_if_blank, checked_status, in_cloud_context, validate_auth_header_name,
  run_cloud_http,
}
use smolit_assistant.Providers.Classes.{classify_text_error}
use smolit_assistant.Providers.Classes.Faults.{
  failed_class, Trouble, stalls, refuses, distrusts, answers, says_nothing, Shows, all_from, fits,
  status_class,
}

-- The client is told that it is not let in, or else that the server refused.
abbrev pub cloud_status_class : ℕ → String
cloud_status_class status =
    if eqb status 401 || eqb status 403 then "unauthorized" else "http_error"

abbrev pub cloud_class : Trouble → String
cloud_class (stalls tls_handshake) = "tls_handshake_failed"
cloud_class (stalls _) = "timeout"
cloud_class refuses = "http_connect_failed"
cloud_class distrusts = "cert_untrusted"
cloud_class (answers status) = cloud_status_class status
cloud_class says_nothing = "empty_response"

pub data CloudFault : Type 0 where
  switched_off no_endpoint no_key : CloudFault
  meets : Trouble → CloudFault

abbrev pub cloud_fault_class : CloudFault → String
cloud_fault_class switched_off = "disabled"
cloud_fault_class no_endpoint = "not_configured"
cloud_fault_class no_key = "secret_missing"
cloud_fault_class (meets t) = cloud_class t

cloud_statuses : all_from (fits "cloud_http" cloud_status_class) 500 100 ≡ true
unfolding all_from classify_text_error decimal
cloud_statuses = refl

module _ (o : Outside) (n : ℕ) (input : String) where
  -- The cloud provider is enabled, and its endpoint, its key and its header can be used.
  pub record IsUsable (c : CloudHttpConfigView) : Type 0 where
    pub endpoint : String
    pub key : String
    pub header : String
    pub parts : CloudHttpScheme × String × ℕ × String
    pub enabled : c.enabled ≡ true
    pub has_endpoint : non_empty c.endpoint ≡ some endpoint
    pub has_key : non_empty c.api_key ≡ some key
    pub has_header : validate_auth_header_name c.auth_header ≡ ok header
    pub parses : parse_cloud_endpoint endpoint ≡ ok parts

  abbrev pub cloud_content : CloudHttpConfigView → String → JsonField
  cloud_content c body = o.read_json body (or_if_blank c.response_field "content")

  cloud_run :
      (c : CloudHttpConfigView) (x : Exchange)
      → IsUsable c
      → ((call : Call) → o.exchange n call ≡ x)
      → run_cloud_http o n c input
        ≡ and_then
            (in_cloud_context (exchanged "cloud_http" x))
            (checked_status "cloud_http" (cloud_content c))
  unfolding run_cloud_http http_request_with_header
  cloud_run c x u h =
      rw (u.enabled, u.has_endpoint, u.has_key, u.has_header, u.parses, h, if◌then◌else◌)

  cloud_trouble :
      (c : CloudHttpConfigView) (t : Trouble) (x : Exchange)
      → Shows "cloud_http" (cloud_content c) t x
      → failed_class (
          and_then
            (in_cloud_context (exchanged "cloud_http" x))
            (checked_status "cloud_http" (cloud_content c)))
        ≡ some (cloud_class t)
  unfolding in_cloud_context exchanged
  cloud_trouble c (stalls connect) x h = unfold classify_text_error in rw h
  cloud_trouble c (stalls tls_handshake) x h = unfold classify_text_error in rw h
  cloud_trouble c (stalls write) x h = unfold classify_text_error in rw h
  cloud_trouble c (stalls read) x h = unfold classify_text_error in rw h
  cloud_trouble c refuses x h = unfold classify_text_error in rw h
  cloud_trouble c distrusts x h = unfold classify_text_error in rw h
  cloud_trouble c (answers status) x (raw, body, e, p, low, high, other) =
      rw (e, p)
        (status_class "cloud_http" cloud_status_class (cloud_content c) status body cloud_statuses
          low high other)
  cloud_trouble c says_nothing x (raw, body, e, p, nothing) =
      unfold classify_text_error in rw (e, p, nothing)

  -- The faults of a run, before a connection is made and on it.
  unfoldable pub CloudMeets : CloudHttpConfigView → CloudFault → Type 0
  CloudMeets c switched_off = c.enabled ≡ false
  CloudMeets c no_endpoint = (c.enabled ≡ true) × (non_empty c.endpoint ≡ none)
  CloudMeets c no_key =
      (c.enabled ≡ true)
      × ((endpoint : String) × (non_empty c.endpoint ≡ some endpoint))
      × (non_empty c.api_key ≡ none)
  CloudMeets c (meets t) =
      IsUsable c
      × ((x : Exchange) × ((call : Call) → o.exchange n call ≡ x)
          × Shows "cloud_http" (cloud_content c) t x)

  -- A run of the cloud provider that is switched off, has no endpoint, has no key, or meets trouble on the
  -- connection fails, and the class of its error is the word for that fault: `unauthorized` for the statuses
  -- 401 and 403, `http_error` for every other from 100 to 599 but 200; `tls_handshake_failed` for a
  -- handshake out of time and `timeout` for another phase; `http_connect_failed` for a refused connection,
  -- `cert_untrusted` for an unknown issuer, `empty_response` for an answer without the field.
  pub run_cloud_http-class :
      (c : CloudHttpConfigView) (fault : CloudFault)
      → CloudMeets c fault
      → failed_class (run_cloud_http o n c input) ≡ some (cloud_fault_class fault)
  unfolding CloudMeets
  run_cloud_http-class c switched_off off =
      unfold run_cloud_http classify_text_error in rw (off, if◌then◌else◌)
  run_cloud_http-class c no_endpoint (on, missing) =
      unfold run_cloud_http classify_text_error in rw (on, missing, if◌then◌else◌)
  run_cloud_http-class c no_key (on, (endpoint, there), missing) =
      unfold run_cloud_http classify_text_error in rw (on, there, missing, if◌then◌else◌)
  run_cloud_http-class c (meets t) (usable, (x, h, shows)) =
      rw (cloud_run c x usable h) (cloud_trouble c t x shows)
