-- ===== src/App/Tasks/Timeouts.antt =====
-- The deadline of an approval in core/src/app.rs, and the answers that come after it.
use smolit_assistant.Base.{
  ℕ, zero, suc, String, true, false, ◌≡◌, refl, ap, Option, none, some, List, [], ◌∷◌, get_elem?,
  set, get_elem?-set_self, get_elem?-some_lt,
}
use smolit_assistant.Kinds.{source_timeout}
use smolit_assistant.Messages.{ApprovalDecision, timed_out}
use smolit_assistant.Approvals.{
  Registry, Channel, waiting, receiver_gone, find, update, drop_receiver, drop_receiver_of, resolve,
  take, deliver, send, closed, unknown_id,
}
use smolit_assistant.Approvals.Delivery.{resolve-take}
use smolit_assistant.App.State.{Env, App, Job, awaits}
use smolit_assistant.App.Tasks.{
  await_decision, expire, channel_of, elapse, without_task, continue, resume, finish,
}

get_elem?-update_self :
    (f : Channel → Channel) (c : ℕ) (chs : List Channel) (ch : Channel)
    → get_elem? chs c ≡ some ch
    → get_elem? (update f c chs) c ≡ some (f ch)
get_elem?-update_self f c [] ch h = cc
get_elem?-update_self f zero (k ∷ chs) ch h = ap (λ o. f_option o) h
  where
    f_option : Option Channel → Option Channel
    f_option none = none
    f_option (some x) = some (f x)
get_elem?-update_self f (suc c) (k ∷ chs) ch h = get_elem?-update_self f c chs ch h

deliver_closed :
    (c : ℕ) (d : ApprovalDecision) (r : Registry)
    → get_elem? r.channels c ≡ some receiver_gone
    → (deliver (some c) d r).0 ≡ some closed
unfolding deliver send
deliver_closed c d r h = rw (h, deliver) refl

dropped_closed :
    (id : String) (c : ℕ) (d : ApprovalDecision) (r : Registry)
    → find id r.pending ≡ some c
    → get_elem? r.channels c ≡ some waiting
    → (resolve id d (drop_receiver c r)).0 ≡ some closed
unfolding resolve take drop_receiver drop_receiver_of
dropped_closed id c d r found h =
    rw found (deliver_closed c d _ (get_elem?-update_self drop_receiver_of c r.channels waiting h))

module _ {W : Type 0} where
  -- The state after the deadline of task `i`.
  abbrev pub expired : ℕ → String → ℕ → Job → App W → App W
  expired i id c job s = record s {
    pending_approvals = drop_receiver c s.pending_approvals;
    tasks = set s.tasks i (awaits id c true job);
  }

  elapse_lem :
      (i : ℕ) (id : String) (c : ℕ) (job : Job) (s : App W)
      → get_elem? s.tasks i ≡ some (awaits id c false job)
      → get_elem? s.pending_approvals.channels c ≡ some waiting
      → elapse i s ≡ expired i id c job s
  unfolding elapse expire channel_of
  elapse_lem i id c job s at ch = rw (at, elapse) (rw (ch, expire) refl)

  -- An answer after the deadline is refused as closed while the task has not continued, and as unknown
  -- once it has taken its entry out.
  pub elapse-resolve :
      (i : ℕ) (id : String) (c : ℕ) (job : Job) (d : ApprovalDecision) (s : App W)
      → get_elem? s.tasks i ≡ some (awaits id c false job)
      → get_elem? s.pending_approvals.channels c ≡ some waiting
      → find id s.pending_approvals.pending ≡ some c
      → let r = (elapse i s).pending_approvals in
        ((resolve id d r).0 ≡ some closed) × ((resolve id d (take id r).1).0 ≡ some unknown_id)
  elapse-resolve i id c job d s at ch found = (
    rw (elapse_lem i id c job s at ch) (dropped_closed id c d s.pending_approvals found ch),
    (resolve-take id d (elapse i s).pending_approvals).0,
  )

module _ {W : Type 0} (env : Env W) where
  -- A waiting task whose deadline passes always continues: with the decision `timed_out` of the source
  -- `timeout`, its registry entry taken out and the task gone.
  pub finish-elapse :
      (i : ℕ) (id : String) (c : ℕ) (job : Job) (s : App W)
      → get_elem? s.tasks i ≡ some (awaits id c false job)
      → get_elem? s.pending_approvals.channels c ≡ some waiting
      → finish env i (elapse i s)
        ≡ continue env job id timed_out source_timeout (
            without_task i (record (elapse i s) {
              pending_approvals = (take id (elapse i s).pending_approvals).1;
            }))
  unfolding finish resume await_decision
  finish-elapse i id c job s at ch = rw (elapse_lem i id c job s at ch) (
      rw
        (
          get_elem?-set_self s.tasks i (awaits id c true job) (get_elem?-some_lt s.tasks i at),
          finish,
        )
        refl)
