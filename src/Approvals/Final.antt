-- ===== src/Approvals/Final.antt =====
-- core/src/approvals/state.rs: an approval is answered once, over all calls of the registry.
use smolit_assistant.Base.{
  ℕ, ◌<◌, ◌≡◌, ◌≢◌, refl, sym, ap, ◌∙◌, String, none, some, List, [], ◌∷◌, length, get_elem?, ◌⊎◌,
  inl, inr, arith, eq_iff,
}
use smolit_assistant.Messages.{ApprovalDecision}
use smolit_assistant.Approvals.{Registry, waiting, sent, new, find, remove, register, take, resolve}
use smolit_assistant.Approvals.Delivery.{
  IsSound, find-remove_self, deliver-pending, drop_sender-pending, resolve_delivers,
}
use smolit_assistant.Approvals.Calls.{
  Call, registers, takes, resolves, call, calls, calls-keep_sent,
}
use smolit_assistant.Approvals.Sound.{
  length-deliver, find-remove-some, length-register, call-IsSound, new-IsSound,
}

-- No two identifiers lead to the same channel.
pub record IsApart (r : Registry) : Type 0 where
  pub apart : (j k : String) (c : ℕ) → find j r.pending ≡ some c → find k r.pending ≡ some c → j ≡ k

-- The channel is there, and no identifier leads to it.
pub record IsDetached (c : ℕ) (r : Registry) : Type 0 where
  pub in_store : c < length r.channels
  pub unlisted : (j : String) → find j r.pending ≢ some c

found_cons :
    (id j : String) (k : ℕ) (m : List (String × ℕ)) (c : ℕ)
    → find j ((id, k) ∷ m) ≡ some c
    → ((id ≡ j) × (c ≡ k)) ⊎ (find j m ≡ some c)
unfolding find
found_cons id j k m c h = ground (arith, eq_iff id j)

register_found :
    (id j : String) (r : Registry) (c : ℕ)
    → find j (register id r).1.pending ≡ some c
    → ((id ≡ j) × (c ≡ length r.channels)) ⊎ (find j r.pending ≡ some c)
unfolding register
register_found id j r c h =
    elim (found_cons id j (length r.channels) (remove id r.pending) c
      (ap (find j) (sym (drop_sender-pending (find id r.pending) _)) ∙ h)) [
        | inl newest ↦ inl newest
        | inr old ↦ inr (find-remove-some id j r.pending c old)
      ]

fewer-IsApart :
    (id : String) (r s : Registry) → IsApart r → s.pending ≡ remove id r.pending → IsApart s
fewer-IsApart id r s a p = record {
  apart = λ j k c f g.
      a.apart j k c (find-remove-some id j r.pending c (ap (find j) (sym p) ∙ f))
        (find-remove-some id k r.pending c (ap (find k) (sym p) ∙ g));
}

fewer-IsDetached :
    (id : String) (c : ℕ) (r s : Registry)
    → IsDetached c r
    → s.pending ≡ remove id r.pending
    → length s.channels ≡ length r.channels
    → IsDetached c s
fewer-IsDetached id c r s a p l = record {
  in_store = rw l a.in_store;
  unlisted = λ j f. a.unlisted j (find-remove-some id j r.pending c (ap (find j) (sym p) ∙ f));
}

register-IsApart : (id : String) (r : Registry) → IsSound r → IsApart r → IsApart (register id r).1
register-IsApart id r sound a = record {
  apart = λ j k c f g. elim (register_found id j r c f) [
    | inl (same, fresh) ↦ elim (register_found id k r c g) [
      | inl (also, _) ↦ sym same ∙ also
      | inr old ↦ absurd (omega (arith, sound.in_store k c old))
    ]
    | inr old ↦ elim (register_found id k r c g) [
      | inl (same, fresh) ↦ absurd (omega (arith, sound.in_store j c old))
      | inr older ↦ a.apart j k c old older
    ]
  ];
}

register-IsDetached :
    (id : String) (c : ℕ) (r : Registry) → IsDetached c r → IsDetached c (register id r).1
register-IsDetached id c r a = record {
  in_store = omega (arith, a.in_store, length-register id r);
  unlisted = λ j f. elim (register_found id j r c f) [
    | inl (same, fresh) ↦ omega (arith, a.in_store)
    | inr old ↦ a.unlisted j old
  ];
}

call-IsApart : (k : Call) (r : Registry) → IsSound r → IsApart r → IsApart (call k r)
unfolding take resolve
call-IsApart (registers id) r sound a = register-IsApart id r sound a
call-IsApart (takes id) r sound a = fewer-IsApart id r (take id r).1 a refl
call-IsApart (resolves id d) r sound a =
    fewer-IsApart id r (resolve id d r).1 a (deliver-pending (find id r.pending) d (take id r).1)

call-IsDetached : (k : Call) (c : ℕ) (r : Registry) → IsDetached c r → IsDetached c (call k r)
unfolding take resolve
call-IsDetached (registers id) c r a = register-IsDetached id c r a
call-IsDetached (takes id) c r a = fewer-IsDetached id c r (take id r).1 a refl refl
call-IsDetached (resolves id d) c r a =
    fewer-IsDetached id c r (resolve id d r).1 a
      (deliver-pending (find id r.pending) d (take id r).1)
      (length-deliver (find id r.pending) d (take id r).1)

calls-IsDetached :
    (ks : List Call) (c : ℕ) (r : Registry) → IsDetached c r → IsDetached c (calls ks r)
calls-IsDetached [] c r a = a
calls-IsDetached (k ∷ ks) c r a = calls-IsDetached ks c (call k r) (call-IsDetached k c r a)

calls-IsSound :
    (ks : List Call) (r : Registry)
    → IsSound r
    → IsApart r
    → IsSound (calls ks r) × IsApart (calls ks r)
calls-IsSound [] r sound a = (sound, a)
calls-IsSound (k ∷ ks) r sound a =
    calls-IsSound ks (call k r) (call-IsSound k r sound) (call-IsApart k r sound a)

new-IsApart : IsApart new
unfolding new
new-IsApart = record { apart = λ j k c f g. unfold find in cc }

-- An answer takes the only entry that leads to its channel.
resolve-IsDetached :
    (id : String) (d : ApprovalDecision) (r : Registry) (c : ℕ)
    → IsSound r
    → IsApart r
    → find id r.pending ≡ some c
    → IsDetached c (resolve id d r).1
unfolding resolve take
resolve-IsDetached id d r c sound a found = record {
  in_store = rw (length-deliver (find id r.pending) d (take id r).1) (sound.in_store id c found);
  unlisted = λ j f.
      let kept = ap (find j) (sym (deliver-pending (find id r.pending) d (take id r).1)) ∙ f in
      let same = a.apart id j c found (find-remove-some id j r.pending c kept) in
      cc (find-remove_self id r.pending, ap (λ i. find i (remove id r.pending)) same, kept);
}

-- In a registry that came about by any calls, the answer to a pending approval whose task waits succeeds
-- and is final: whatever is called next, its channel holds the decision, and no identifier, the same one
-- registered again included, leads to that channel, so that no later answer and no later registration
-- reaches the task.
pub resolve_final :
    (before after : List Call) (id : String) (d : ApprovalDecision) (c : ℕ)
    → find id (calls before new).pending ≡ some c
    → get_elem? (calls before new).channels c ≡ some waiting
    → let answered = resolve id d (calls before new) in
      let later = calls after answered.1 in
      (answered.0 ≡ none)
      × (get_elem? later.channels c ≡ some (sent d))
      × ((j : String) → find j later.pending ≢ some c)
resolve_final before after id d c found waits =
    let r = calls before new in
    let (sound, a) = calls-IsSound before new new-IsSound new-IsApart in
    let (good, there) = resolve_delivers id d r c found waits in
    let answered = resolve id d r in
    (
      good,
      calls-keep_sent after c d answered.1 there,
      (calls-IsDetached after c answered.1 (resolve-IsDetached id d r c sound a found)).unlisted,
    )
