-- ===== src/Providers/Llamafile.antt =====
-- core/src/providers/text.rs: the llamafile provider, which starts a local server on demand, waits until
-- it is ready, and stops it when it has been idle.
pub mod Ready
pub mod Settled
use smolit_assistant.Base.{
  ℕ, zero, suc, ◌+◌, ◌-◌, ◌*◌, ◌/◌, String, Bool, true, false, not, ◌&&◌, ◌||◌, Option, none, some,
  List, [], ◌∷◌, leb, eqb, if◌then◌else◌, is_empty, is_some, trim, or_else,
}
use smolit_assistant.Base.Decimal.{decimal}
use smolit_assistant.Base.Failures.{Result, ok, err, and_then, bail, context}
use smolit_assistant.Base.Text.Cuts.{◌<>◌}
use smolit_assistant.Providers.Outside.{Outside, Json, text, number, flag}
use smolit_assistant.Providers.Http.{http_request, check_health, at_least_one}
use smolit_assistant.Providers.Text.{checked_status}

pub data LlamafileLifecycle : Type 0 where
  disabled not_configured configured starting ready busy failed stopped : LlamafileLifecycle

unfoldable pub lifecycle_str : LlamafileLifecycle → String
lifecycle_str disabled = "disabled"
lifecycle_str not_configured = "not_configured"
lifecycle_str configured = "configured"
lifecycle_str starting = "starting"
lifecycle_str ready = "ready"
lifecycle_str busy = "busy"
lifecycle_str failed = "failed"
lifecycle_str stopped = "stopped"

pub record LlamafileConfigView : Type 0 where
  pub enabled : Bool
  pub path : Option String
  pub mode : String
  pub idle_timeout_seconds : ℕ
  pub port : ℕ
  pub startup_timeout_seconds : ℕ
  pub request_timeout_seconds : ℕ

-- `child` tells whether a server process is held; `last_used` is a reading of the clock in
-- milliseconds.
pub record LlamafileLocalProvider : Type 0 where
  pub config : LlamafileConfigView
  pub lifecycle : LlamafileLifecycle
  pub child : Bool
  pub last_used : ℕ
  pub watchdog_running : Bool

abbrev pub is_blank : Option String → Bool
is_blank none = true
is_blank (some p) = is_empty (trim p)

unfoldable pub initial_lifecycle : LlamafileConfigView → LlamafileLifecycle
unfolding trim
initial_lifecycle config =
    if config.enabled then if is_blank config.path then not_configured else configured else disabled

-- `now` is the reading of the clock at the start.
unfoldable pub new_llamafile : ℕ → LlamafileConfigView → LlamafileLocalProvider
unfolding initial_lifecycle
new_llamafile now config = record {
  config = config;
  lifecycle = initial_lifecycle config;
  child = false;
  last_used = now;
  watchdog_running = false;
}

abbrev pub llamafile_host : String
llamafile_host = "127.0.0.1"

abbrev pub health_poll_interval_ms : ℕ
health_poll_interval_ms = 250

abbrev pub default_n_predict : ℕ
default_n_predict = 256

abbrev pub disabled_message : String
disabled_message = "provider llamafile_local is disabled (set SMOLIT_LLAMAFILE_ENABLED=1 to enable)"

abbrev pub not_configured_message : String
not_configured_message =
    "provider llamafile_local is enabled but not configured (set SMOLIT_LLAMAFILE_PATH)"

-- What a call answers, the provider behind it, and the number of the next call outside.
abbrev pub Run : Type 0 → Type 0
Run A = Result A × LlamafileLocalProvider × ℕ

abbrev pub failing : {A : Type 0} → List String → LlamafileLocalProvider → ℕ → Run A
failing e p n = (err e, record p { lifecycle = failed; child = false }, n)

-- `remaining.as_secs().max(1)`, with at least 100 ms remaining.
abbrev pub probe_secs : ℕ → ℕ → ℕ → ℕ
probe_secs start total_ms now =
    let left = start + total_ms - now in at_least_one ((if leb 100 left then left else 100) / 1000)

-- Rounds that are enough for the loop, if the clock advances by the length of the sleep in each.
abbrev pub enough_rounds : LlamafileLocalProvider → ℕ
enough_rounds p = suc (p.config.startup_timeout_seconds * 4)

abbrev pub or_timed_out : LlamafileLocalProvider → ℕ → Option (Run (Unit {0})) → Run (Unit {0})
or_timed_out p n (some r) = r
or_timed_out p n none = failing ("llamafile readiness check timed out" ∷ []) p n

module _ (o : Outside) where
  -- `POST /completion` on the local server: the n-th call outside.
  unfoldable pub post_completion : ℕ → ℕ → String → ℕ → Result String
  unfolding http_request trim decimal
  post_completion n port prompt timeout_secs =
      and_then
        (http_request o n llamafile_host port "POST" "/completion"
          (some (
            o.encode_json (
              ("prompt", text prompt)
              ∷ ("n_predict", number default_n_predict)
              ∷ ("stream", flag false)
              ∷ [])))
          timeout_secs)
        (checked_status "llamafile" (λ body. o.read_json body "content"))

  -- The readiness loop, from the reading `start` of the clock on. One round makes four calls outside:
  -- whether the server has ended, the clock, the health check, the clock again; and it sleeps. `none`
  -- means that the rounds ran out.
  unfoldable pub ready_loop : ℕ → ℕ → ℕ → LlamafileLocalProvider → Option (Run (Unit {0}))
  unfolding check_health
  ready_loop zero start n p = none
  ready_loop (suc rounds) start n p =
      let total_ms = p.config.startup_timeout_seconds * 1000 in
      let secs = probe_secs start total_ms (o.instant (n + 1)) in
      let now = o.instant (n + 3) in
      let again = ready_loop rounds start (n + 4) p in
      elim (o.try_wait n) [
        | some status ↦
            some
              (failing (("llamafile process exited during startup with " <> status) ∷ []) p (n + 4))
        | none ↦
            if check_health o (n + 2) llamafile_host p.config.port secs
            then some (ok tt, record p { lifecycle = ready; last_used = now }, n + 4)
            else if leb (start + total_ms) now
            then some (failing ("llamafile readiness check timed out" ∷ []) p (n + 4))
            else again
      ]

  abbrev pub started : ℕ → LlamafileLocalProvider → Option String → Run (Unit {0})
  started n p (some kind) = failing (("llamafile process spawn failed: " <> kind) ∷ []) p (n + 1)
  started n p none =
      let p1 = record p { child = true; last_used = o.instant (n + 1) } in
      or_timed_out p1 (n + 3) (ready_loop (enough_rounds p1) (o.instant (n + 2)) (n + 3) p1)

  unfoldable pub spawn_and_wait_ready : ℕ → LlamafileLocalProvider → Run (Unit {0})
  unfolding ready_loop trim
  spawn_and_wait_ready n p0 =
      let p = record p0 { lifecycle = starting } in
      if is_blank p.config.path
      then (bail not_configured_message, record p { lifecycle = not_configured }, n)
      else started n p (o.start n (or_else p.config.path "") p.config.port)

  abbrev pub after_completion : ℕ → LlamafileLocalProvider → Result String → Run String
  after_completion n p (ok t) = (
    ok t,
    record p {
      last_used = o.instant n;
      lifecycle = ready;
      watchdog_running = p.watchdog_running || p.child;
    },
    n + 1,
  )
  after_completion n p (err e) =
      (err e, record p { lifecycle = failed; child = false; watchdog_running = false }, n)

  unfoldable pub complete : ℕ → LlamafileLocalProvider → String → Run String
  unfolding post_completion
  complete n p input =
      after_completion (n + 1) (record p { lifecycle = busy })
        (post_completion n p.config.port input p.config.request_timeout_seconds)

  abbrev pub when_ready : String → Run (Unit {0}) → Run String
  when_ready input (ok done, p, n) = complete n p input
  when_ready input (err e, p, n) = (err e, p, n)

  abbrev pub serve : ℕ → LlamafileLocalProvider → String → Run String
  serve n p input =
      if p.child then complete n p input else when_ready input (spawn_and_wait_ready n p)

  abbrev pub run_in : LlamafileLifecycle → ℕ → LlamafileLocalProvider → String → Run String
  run_in disabled n p input = (bail disabled_message, p, n)
  run_in not_configured n p input = (bail not_configured_message, p, n)
  run_in configured n p input = serve n p input
  run_in starting n p input = serve n p input
  run_in ready n p input = serve n p input
  run_in busy n p input = serve n p input
  run_in failed n p input = serve n p input
  run_in stopped n p input = serve n p input

  unfoldable pub run_llamafile : ℕ → LlamafileLocalProvider → String → Run String
  unfolding spawn_and_wait_ready complete
  run_llamafile n p input = run_in p.lifecycle n p input

-- One check of the watchdog at the reading `now` of the clock.
unfoldable pub watchdog_tick : ℕ → LlamafileLocalProvider → LlamafileLocalProvider
watchdog_tick now p =
    if not p.child
    then record p { watchdog_running = false }
    else if leb (at_least_one p.config.idle_timeout_seconds * 1000) (now - p.last_used)
    then record p { child = false; watchdog_running = false; lifecycle = stopped }
    else p
