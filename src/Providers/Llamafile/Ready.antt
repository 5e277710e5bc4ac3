-- ===== src/Providers/Llamafile/Ready.antt =====
-- core/src/providers/text.rs: the wait for a started llamafile server comes to an end.
use smolit_assistant.Base.{
  ℕ, zero, suc, ◌+◌, ◌*◌, ◌≤◌, ◌<◌, ◌≡◌, refl, arith, true, false, none, some, inl, inr, leb,
  leb_false→lt, Option, Bool-cases, Option-cases,
}
use smolit_assistant.Base.Failures.{ok, err}
use smolit_assistant.Providers.Outside.{Outside}
use smolit_assistant.Providers.Http.{check_health}
use smolit_assistant.Providers.Llamafile.{
  LlamafileLocalProvider, ready, failed, health_poll_interval_ms, llamafile_host, probe_secs, Run,
  ready_loop, enough_rounds,
}

-- The loop ended with a server that answers, or with none.
pub Ended : Run (Unit {0}) → Type 0
Ended (ok done, p, n) = (p.lifecycle ≡ ready) × (p.child ≡ true)
Ended (err e, p, n) = (p.lifecycle ≡ failed) × (p.child ≡ false)

-- The rounds did not run out, and the loop ended so.
abbrev pub Ends : Option (Run (Unit {0})) → Type 0
Ends none = ⊥
Ends (some r) = Ended r

module _ (o : Outside) (start : ℕ) where
  -- From the outside call `n` on, the clock at the end of the k-th round shows that `j + k` sleeps
  -- have passed since `start`.
  abbrev pub Sleeps : ℕ → ℕ → Type 0
  Sleeps n j =
      (k i : ℕ) → i ≡ n + 4 * k + 3 → start + health_poll_interval_ms * (j + k) ≤ o.instant i

  later : (n j : ℕ) → Sleeps n j → Sleeps (n + 4) (suc j)
  later n j slept k i e = omega (arith, slept (suc k) i (omega arith))

  loop-Ends :
      (rounds n j : ℕ) (p : LlamafileLocalProvider)
      → Sleeps n j
      → p.child ≡ true
      → p.config.startup_timeout_seconds * 1000 < health_poll_interval_ms * (j + rounds)
      → 0 < rounds
      → Ends (ready_loop o rounds start n p)
  unfolding ready_loop Ended
  loop-Ends zero n j p slept held enough pos = absurd (omega arith)
  loop-Ends (suc rounds) n j p slept held enough pos =
      let secs = probe_secs start (p.config.startup_timeout_seconds * 1000) (o.instant (n + 1)) in
      let now = o.instant (n + 3) in
      let at_end = start + p.config.startup_timeout_seconds * 1000 in
      elim (Option-cases (o.try_wait n)) [
        | inr (status, gone) ↦ rw (gone, ready_loop) (refl, refl)
        | inl runs ↦ elim (Bool-cases (check_health o (n + 2) llamafile_host p.config.port secs)) [
          | inl healthy ↦ rw (runs, ready_loop) (rw healthy (refl, held))
          | inr silent ↦ elim (Bool-cases (leb at_end now)) [
            | inl late ↦ rw (runs, ready_loop) (rw (silent, late) (refl, refl))
            | inr early ↦
                let before = leb_false→lt at_end now early in
                let passed = slept 0 (n + 3) (omega arith) in
                rw (runs, ready_loop)
                  (rw (silent, early)
                    (loop-Ends rounds (n + 4) (suc j) p (later n j slept) held (omega arith)
                      (omega arith)))
          ]
        ]
      ]

  -- If the clock shows at the end of each round how long the sleeps before it have taken, the readiness
  -- loop for a started server ends within the rounds that are given: in the lifecycle `ready` with the
  -- server held, or in the lifecycle `failed` with none.
  pub ready_loop-Ends :
      (n : ℕ) (p : LlamafileLocalProvider)
      → Sleeps n 0
      → p.child ≡ true
      → Ends (ready_loop o (enough_rounds p) start n p)
  ready_loop-Ends n p slept held =
      loop-Ends (enough_rounds p) n 0 p slept held (omega arith) (omega arith)
