-- ===== src/Providers/Classes/Faults.antt =====
-- core/src/providers/text.rs: the class of what goes wrong in a run of the HTTP providers. The messages of
-- the runs and the rules of `classify_error` stand apart in the code, and meet here.
pub mod Cloud
pub mod Local
use smolit_assistant.Base.{
  ℕ, zero, suc, ◌+◌, ◌≤◌, ◌<◌, ◌≡◌, ◌≢◌, refl, ap, String, Bool, true, false, ◌&&◌, ◌||◌, Option,
  none, some, [], ◌∷◌, ◌==◌, eq_iff, eqb, if◌then◌else◌, arith,
}
use smolit_assistant.Base.Decimal.{decimal}
use smolit_assistant.Base.Failures.{Result, ok, err, and_then}
use smolit_assistant.Base.Text.Cuts.{◌<>◌}
use smolit_assistant.Config.Values.{non_empty}
use smolit_assistant.Providers.Outside.{
  Outside, Call, Phase, connect, tls_handshake, write, read, Exchange, times_out, fails,
  read_as_text, JsonField, no_text,
}
use smolit_assistant.Providers.Endpoint.{
  CloudHttpScheme, parse_local_endpoint, parse_cloud_endpoint,
}
use smolit_assistant.Providers.Http.{
  parse_response, exchanged, http_request, http_request_with_header,
}
use smolit_assistant.Providers.Text.{
  LocalHttpConfigView, CloudHttpConfigView, or_if_blank, checked_status, in_local_context,
  in_cloud_context, validate_auth_header_name, run_local_http, run_cloud_http,
}
use smolit_assistant.Providers.Classes.{classify_text_error}

-- The class of a run's error, if it fails.
abbrev pub failed_class : Result String → Option String
failed_class (ok answer) = none
failed_class (err e) = some (classify_text_error e)

-- What a connection meets: a phase that runs out of time, a port that nobody listens on, a certificate of an
-- unknown issuer, an answer of the given status, or an answer of status 200 without the expected field.
pub data Trouble : Type 0 where
  stalls : Phase → Trouble
  refuses : Trouble
  distrusts : Trouble
  answers : ℕ → Trouble
  says_nothing : Trouble

-- `name` is the one that the exchange puts in front of its messages, `look` reads the field of a body. The
-- two reasons are the texts of the operating system and of rustls.
abbrev pub Shows : String → (String → JsonField) → Trouble → Exchange → Type 0
Shows name look (stalls phase) x = x ≡ times_out phase
Shows name look refuses x = x ≡ fails connect "Connection refused (os error 111)"
Shows name look distrusts x = x ≡ fails tls_handshake "invalid peer certificate: UnknownIssuer"
Shows name look (answers status) x =
    (raw body : String) × (x ≡ read_as_text (ok raw))
    × (parse_response name raw ≡ ok (status, body))
    × (100 ≤ status)
    × (status < 600)
    × (status ≢ 200)
Shows name look says_nothing x =
    (raw body : String) × (x ≡ read_as_text (ok raw))
    × (parse_response name raw ≡ ok (200, body))
    × (look body ≡ no_text)

-- A test of `k` numbers from `n` on.
unfoldable pub all_from : (ℕ → Bool) → ℕ → ℕ → Bool
all_from test zero n = true
all_from test (suc k) n = test n && all_from test k (n + 1)

among : (test : ℕ → Bool) (k n m : ℕ) → all_from test k n ≡ true → n ≤ m → m < n + k → test m ≡ true
unfolding all_from
among test zero n m h low high = absurd (omega arith)
among test (suc k) n m h low high = ground (arith, among test k (n + 1) m)

abbrev status_error : String → ℕ → String
status_error name status =
    classify_text_error ((name <> (" HTTP returned status " <> decimal status)) ∷ [])

abbrev pub fits : String → (ℕ → String) → ℕ → Bool
fits name class status = eqb status 200 || (status_error name status == class status)

status_fits :
    (name : String) (class : ℕ → String) (status : ℕ)
    → all_from (fits name class) 500 100 ≡ true
    → 100 ≤ status
    → status < 600
    → status ≢ 200
    → status_error name status ≡ class status
status_fits name class status h low high other =
    let there = among (fits name class) 500 100 status h low high in
    ground (arith, eq_iff (status_error name status) (class status), there)

eqb-false : (a b : ℕ) → a ≢ b → eqb a b ≡ false
eqb-false a b h = ground arith

pub status_class :
    (name : String) (class : ℕ → String) (look : String → JsonField) (status : ℕ) (body : String)
    → all_from (fits name class) 500 100 ≡ true
    → 100 ≤ status
    → status < 600
    → status ≢ 200
    → failed_class (checked_status name look (status, body)) ≡ some (class status)
status_class name class look status body h low high other =
    rw (eqb-false status 200 other, if◌then◌else◌)
      (ap some (status_fits name class status h low high other))
