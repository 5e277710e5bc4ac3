-- ===== src/Providers/Llamafile/Settled.antt =====
-- core/src/providers/text.rs: between two calls the llamafile provider holds a server exactly if its
-- lifecycle says that one is ready.
use smolit_assistant.Base.{
  ℕ, ◌+◌, ◌≡◌, ◌≢◌, refl, ap, ◌∙◌, zero, suc, String, true, false, not, ◌⊎◌, inl, inr, leb,
  if◌then◌else◌, if_both, Bool-cases, Option-cases, or_else, ◌-◌, ◌*◌,
}
use smolit_assistant.Base.Failures.{Result, ok, err}
use smolit_assistant.Providers.Outside.{Outside}
use smolit_assistant.Providers.Http.{check_health, at_least_one}
use smolit_assistant.Providers.Llamafile.{
  LlamafileConfigView, LlamafileLocalProvider, LlamafileLifecycle, disabled, not_configured,
  configured, starting, ready, busy, failed, stopped, is_blank, initial_lifecycle, new_llamafile,
  Run, ready_loop, enough_rounds, or_timed_out, spawn_and_wait_ready, complete, post_completion,
  run_llamafile, watchdog_tick, after_completion, when_ready, serve, run_in, probe_secs,
  llamafile_host,
}

-- No server is held and no call is under way.
pub Idle : LlamafileLifecycle → Type 0
Idle starting = ⊥
Idle ready = ⊥
Idle busy = ⊥
Idle _ = Unit

-- A server is held in the lifecycle `ready`, and in no other; and only a provider that is enabled is
-- in another lifecycle than `disabled`.
pub IsSettled : LlamafileLocalProvider → Type 0
IsSettled p =
    (((p.child ≡ true) × (p.lifecycle ≡ ready)) ⊎ ((p.child ≡ false) × Idle p.lifecycle))
    × ((p.lifecycle ≡ disabled) ⊎ (p.config.enabled ≡ true))

-- The configuration stays, and the provider is settled.
abbrev Settles : {A : Type 0} → LlamafileLocalProvider → Run A → Type 0
Settles p (r, q, n) = (q.config ≡ p.config) × IsSettled q

-- The same, and the server of a successful wait is held.
abbrev Readies : LlamafileLocalProvider → Run (Unit {0}) → Type 0
Readies p (ok done, q, n) = (q.config ≡ p.config) × (q.child ≡ true)
Readies p (err e, q, n) = (q.config ≡ p.config) × IsSettled q

initial-Idle :
    (c : LlamafileConfigView)
    → Idle (initial_lifecycle c) × ((initial_lifecycle c ≡ disabled) ⊎ (c.enabled ≡ true))
unfolding Idle initial_lifecycle
initial-Idle c = elim (Bool-cases c.enabled) [
  | inr off ↦ rw (off, if◌then◌else◌) (tt, inl refl)
  | inl on ↦ elim (Bool-cases (is_blank c.path)) [
    | inl blank ↦ rw (on, blank, if◌then◌else◌) (tt, inr refl)
    | inr set ↦ rw (on, set, if◌then◌else◌) (tt, inr refl)
  ]
]

pub new_llamafile-IsSettled : (now : ℕ) (c : LlamafileConfigView) → IsSettled (new_llamafile now c)
unfolding IsSettled new_llamafile
new_llamafile-IsSettled now c =
    let (idle, permitted) = initial-Idle c in (inr (refl, idle), permitted)

module _ (o : Outside) where
  loop-Readies :
      (rounds start n : ℕ) (p : LlamafileLocalProvider) (m : ℕ)
      → p.child ≡ true
      → p.config.enabled ≡ true
      → Readies p (or_timed_out p m (ready_loop o rounds start n p))
  unfolding ready_loop IsSettled Idle
  loop-Readies zero start n p m held on = (refl, (inr (refl, tt), inr on))
  loop-Readies (suc rounds) start n p m held on =
      let secs = probe_secs start (p.config.startup_timeout_seconds * 1000) (o.instant (n + 1)) in
      let now = o.instant (n + 3) in
      let at_end = start + p.config.startup_timeout_seconds * 1000 in
      elim (Option-cases (o.try_wait n)) [
        | inr (status, gone) ↦ rw (gone, ready_loop) (refl, (inr (refl, tt), inr on))
        | inl runs ↦ elim (Bool-cases (check_health o (n + 2) llamafile_host p.config.port secs)) [
          | inl healthy ↦ rw (runs, ready_loop) (rw healthy (refl, held))
          | inr silent ↦ elim (Bool-cases (leb at_end now)) [
            | inl late ↦ rw (runs, ready_loop) (rw (silent, late) (refl, (inr (refl, tt), inr on)))
            | inr early ↦
                rw (runs, ready_loop)
                  (rw (silent, early) (loop-Readies rounds start (n + 4) p m held on))
          ]
        ]
      ]

  spawn-Readies :
      (n : ℕ) (p : LlamafileLocalProvider)
      → p.child ≡ false
      → p.config.enabled ≡ true
      → Readies p (spawn_and_wait_ready o n p)
  unfolding spawn_and_wait_ready IsSettled Idle
  spawn-Readies n p empty on = elim (Bool-cases (is_blank p.config.path)) [
    | inl blank ↦ rw (blank, if◌then◌else◌) (refl, (inr (empty, tt), inr on))
    | inr set ↦ elim (Option-cases (o.start n (or_else p.config.path "") p.config.port)) [
      | inr (kind, fault) ↦ rw (set, if◌then◌else◌) (rw fault (refl, (inr (refl, tt), inr on)))
      | inl fine ↦
          let p1 = record p { lifecycle = starting; child = true; last_used = o.instant (n + 1) } in
          rw (set, if◌then◌else◌)
            (rw fine
              (loop-Readies (enough_rounds p1) (o.instant (n + 2)) (n + 3) p1 (n + 3) refl on))
    ]
  ]

  completed :
      (n : ℕ) (p : LlamafileLocalProvider) (r : Result String)
      → p.child ≡ true
      → p.config.enabled ≡ true
      → Settles p (after_completion o n (record p { lifecycle = busy }) r)
  unfolding IsSettled Idle
  completed n p (ok t) held on = (refl, (inl (held, refl), inr on))
  completed n p (err e) held on = (refl, (inr (refl, tt), inr on))

  complete-Settles :
      (n : ℕ) (p : LlamafileLocalProvider) (input : String)
      → p.child ≡ true
      → p.config.enabled ≡ true
      → Settles p (complete o n p input)
  unfolding complete
  complete-Settles n p input held on =
      completed (n + 1) p (post_completion o n p.config.port input p.config.request_timeout_seconds)
        held on

  served :
      (p : LlamafileLocalProvider) (input : String) (r : Run (Unit {0}))
      → p.config.enabled ≡ true
      → Readies p r
      → Settles p (when_ready o input r)
  served p input (err e, q, n) on (same, settled) = (same, settled)
  served p input (ok done, q, n) on (same, held) =
      let (same', settled) = complete-Settles n q input held (ap (λ c. c.enabled) same ∙ on) in
      (same' ∙ same, settled)

  serve-Settles :
      (n : ℕ) (p : LlamafileLocalProvider) (input : String)
      → p.config.enabled ≡ true
      → Settles p (serve o n p input)
  serve-Settles n p input on =
      if_both (Settles p) p.child (complete o n p input)
        (when_ready o input (spawn_and_wait_ready o n p))
        (λ held. complete-Settles n p input held on)
        (λ empty. served p input (spawn_and_wait_ready o n p) on (spawn-Readies n p empty on))

  enabled_of :
      (p : LlamafileLocalProvider) → IsSettled p → p.lifecycle ≢ disabled → p.config.enabled ≡ true
  unfolding IsSettled
  enabled_of p (held, inl off) other = absurd (other off)
  enabled_of p (held, inr on) other = on

  run_in-Settles :
      (l : LlamafileLifecycle) (n : ℕ) (p : LlamafileLocalProvider) (input : String)
      → IsSettled p
      → (l ≢ disabled → p.config.enabled ≡ true)
      → Settles p (run_in o l n p input)
  run_in-Settles disabled n p input settled on = (refl, settled)
  run_in-Settles not_configured n p input settled on = (refl, settled)
  run_in-Settles configured n p input settled on = serve-Settles n p input (on (λ e. cc))
  run_in-Settles starting n p input settled on = serve-Settles n p input (on (λ e. cc))
  run_in-Settles ready n p input settled on = serve-Settles n p input (on (λ e. cc))
  run_in-Settles busy n p input settled on = serve-Settles n p input (on (λ e. cc))
  run_in-Settles failed n p input settled on = serve-Settles n p input (on (λ e. cc))
  run_in-Settles stopped n p input settled on = serve-Settles n p input (on (λ e. cc))

  -- Whatever happens outside during a call, a settled provider (it holds a server exactly in the
  -- lifecycle `ready`, no call is under way, and it is enabled or in the lifecycle `disabled`) is settled
  -- again behind the call, with the same configuration.
  pub run_llamafile-IsSettled :
      (n : ℕ) (p : LlamafileLocalProvider) (input : String)
      → IsSettled p
      → ((run_llamafile o n p input).1.config ≡ p.config) × IsSettled (run_llamafile o n p input).1
  unfolding run_llamafile
  run_llamafile-IsSettled n p input settled =
      run_in-Settles p.lifecycle n p input settled (enabled_of p settled)

used :
    (p : LlamafileLocalProvider)
    → ((p.child ≡ true) × (p.lifecycle ≡ ready)) ⊎ ((p.child ≡ false) × Idle p.lifecycle)
    → (p.lifecycle ≡ disabled) ⊎ (p.config.enabled ≡ true)
    → not p.child ≡ false
    → p.config.enabled ≡ true
used p held (inr on) kept = on
used p (inl (a, b)) (inl off) kept = cc
used p (inr (a, b)) (inl off) kept = cc (rw a at kept)

-- A check of the watchdog leaves a settled provider settled.
pub watchdog_tick-IsSettled :
    (now : ℕ) (p : LlamafileLocalProvider) → IsSettled p → IsSettled (watchdog_tick now p)
unfolding watchdog_tick IsSettled Idle
watchdog_tick-IsSettled now p (held, permitted) =
    if_both IsSettled (not p.child) (record p { watchdog_running = false })
      (if leb (at_least_one p.config.idle_timeout_seconds * 1000) (now - p.last_used)
        then record p { child = false; watchdog_running = false; lifecycle = stopped }
        else p)
      (λ empty. (held, permitted))
      (λ kept.
        if_both IsSettled
          (leb (at_least_one p.config.idle_timeout_seconds * 1000) (now - p.last_used))
          (record p { child = false; watchdog_running = false; lifecycle = stopped }) p
          (λ idle. (inr (refl, tt), inr (used p held permitted kept)))
          (λ recent. (held, permitted)))
