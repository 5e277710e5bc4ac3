-- ===== src/Approvals/Sound.antt =====
-- Pending approvals and their channels, in the registry of core/src/approvals/state.rs.
use smolit_assistant.Base.{
  ℕ, zero, suc, ◌+◌, ◌≡◌, refl, sym, ap, ◌∙◌, String, Option, none, some, List, [], ◌∷◌, length,
  get_elem?, set, length-append, Option-cases, ◌⊎◌, inl, inr, arith,
}
use smolit_assistant.Messages.{ApprovalDecision}
use smolit_assistant.Approvals.{
  Registry, Channel, waiting, sent, sender_gone, receiver_gone, new, find, remove, register, take,
  resolve, deliver, send, update, drop_sender, drop_sender_of, drop_receiver, drop_receiver_of,
}
use smolit_assistant.Approvals.Delivery.{IsSound, find-remove, deliver-pending, drop_sender-pending}
use smolit_assistant.Approvals.Calls.{Call, registers, takes, resolves, call}

length-update :
    (f : Channel → Channel) (c : ℕ) (chs : List Channel) → length (update f c chs) ≡ length chs
length-update f c [] = refl
length-update f zero (ch ∷ chs) = refl
length-update f (suc c) (ch ∷ chs) = ap suc (length-update f c chs)

length-set : (chs : List Channel) (c : ℕ) (ch : Channel) → length (set chs c ch) ≡ length chs
length-set [] c v = refl
length-set (ch ∷ chs) zero v = refl
length-set (ch ∷ chs) (suc c) v = ap suc (length-set chs c v)

length-drop_sender :
    (o : Option ℕ) (r : Registry) → length (drop_sender o r).channels ≡ length r.channels
unfolding drop_sender
length-drop_sender none r = refl
length-drop_sender (some c) r = length-update drop_sender_of c r.channels

length-send :
    (c : ℕ) (d : ApprovalDecision) (ch : Channel) (r : Registry)
    → length (send c d ch r).1.channels ≡ length r.channels
unfolding send
length-send c d waiting r = length-set r.channels c (sent d)
length-send c d (sent e) r = refl
length-send c d sender_gone r = refl
length-send c d receiver_gone r = refl

pub length-deliver :
    (o : Option ℕ) (d : ApprovalDecision) (r : Registry)
    → length (deliver o d r).1.channels ≡ length r.channels
unfolding deliver
length-deliver none d r = refl
length-deliver (some c) d r = elim (Option-cases (get_elem? r.channels c)) [
  | inl e ↦ rw (e, deliver)
  | inr (ch, e) ↦ rw (e, deliver) (length-send c d ch r)
]

-- What is left after a removal was there before.
pub find-remove-some :
    (id j : String) (m : List (String × ℕ)) (c : ℕ)
    → find j (remove id m) ≡ some c
    → find j m ≡ some c
find-remove-some id j m c h = ground (arith, find-remove id j m)

fewer-IsSound :
    (r s : Registry) (id : String)
    → IsSound r
    → s.pending ≡ remove id r.pending
    → length s.channels ≡ length r.channels
    → IsSound s
fewer-IsSound r s id sound p l = record {
  in_store = λ j c h.
      rw l (sound.in_store j c (find-remove-some id j r.pending c (ap (find j) (sym p) ∙ h)));
}

find-cons :
    (id j : String) (k : ℕ) (m : List (String × ℕ)) (c : ℕ)
    → find j ((id, k) ∷ m) ≡ some c
    → (c ≡ k) ⊎ (find j m ≡ some c)
unfolding find
find-cons id j k m c h = ground arith

register_pending :
    (id j : String) (r : Registry) (c : ℕ)
    → find j (register id r).1.pending ≡ some c
    → (c ≡ length r.channels) ⊎ (find j r.pending ≡ some c)
unfolding register
register_pending id j r c h =
    elim (find-cons id j (length r.channels) (remove id r.pending) c
      (ap (find j) (sym (drop_sender-pending (find id r.pending) _)) ∙ h)) [
        | inl e ↦ inl e
        | inr old ↦ inr (find-remove-some id j r.pending c old)
      ]

pub length-register :
    (id : String) (r : Registry) → length (register id r).1.channels ≡ length r.channels + 1
unfolding register
length-register id r =
    length-drop_sender (find id r.pending) _ ∙ length-append r.channels (waiting ∷ [])

register-IsSound : (id : String) (r : Registry) → IsSound r → IsSound (register id r).1
register-IsSound id r sound = record {
  in_store = λ j c h. elim (register_pending id j r c h) [
    | inl e ↦ omega (arith, e, length-register id r)
    | inr old ↦ omega (arith, sound.in_store j c old, length-register id r)
  ];
}

-- Each call of the registry keeps it sound: every pending approval has its channel in the store.
pub call-IsSound : (k : Call) (r : Registry) → IsSound r → IsSound (call k r)
unfolding take resolve
call-IsSound (registers id) r sound = register-IsSound id r sound
call-IsSound (takes id) r sound = fewer-IsSound r (take id r).1 id sound refl refl
call-IsSound (resolves id d) r sound =
    fewer-IsSound r (resolve id d r).1 id sound
      (deliver-pending (find id r.pending) d (take id r).1)
      (length-deliver (find id r.pending) d (take id r).1)

pub new-IsSound : IsSound new
unfolding new
new-IsSound = record { in_store = λ id c h. unfold find in cc }

pub drop_receiver-IsSound : (c : ℕ) (r : Registry) → IsSound r → IsSound (drop_receiver c r)
unfolding drop_receiver
drop_receiver-IsSound c r sound = record {
  in_store = λ id k h. rw (length-update drop_receiver_of c r.channels) (sound.in_store id k h);
}
