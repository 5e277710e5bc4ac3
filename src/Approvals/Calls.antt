-- ===== src/Approvals/Calls.antt =====
-- Sequences of calls of the registry of core/src/approvals/state.rs.
use smolit_assistant.Base.{
  ℕ, zero, suc, ◌≡◌, ap, ◌∙◌, String, Option, none, some, List, [], ◌∷◌, get_elem?,
  get_elem?-set_ne, get_elem?-append_left, get_elem?-some_lt, Option-cases, inl, inr,
}
use smolit_assistant.Messages.{ApprovalDecision}
use smolit_assistant.Approvals.{
  Registry, Channel, waiting, sent, sender_gone, receiver_gone, find, register, take, resolve,
  deliver, send, update, drop_sender, drop_sender_of,
}

-- The calls of the registry.
pub data Call : Type 0 where
  registers : String → Call
  takes : String → Call
  resolves : String → ApprovalDecision → Call

abbrev pub call : Call → Registry → Registry
call (registers id) r = (register id r).1
call (takes id) r = (take id r).1
call (resolves id d) r = (resolve id d r).1

abbrev pub calls : List Call → Registry → Registry
calls [] r = r
calls (k ∷ ks) r = calls ks (call k r)

Holds : ℕ → ApprovalDecision → Registry → Type 0
Holds c d r = get_elem? r.channels c ≡ some (sent d)

update-Holds :
    (k c : ℕ) (chs : List Channel) (d : ApprovalDecision)
    → get_elem? chs c ≡ some (sent d)
    → get_elem? (update drop_sender_of k chs) c ≡ some (sent d)
update-Holds k c [] d h = h
update-Holds zero zero (waiting ∷ chs) d h = cc
update-Holds zero zero (sent e ∷ chs) d h = unfold drop_sender_of in h
update-Holds zero zero (sender_gone ∷ chs) d h = cc
update-Holds zero zero (receiver_gone ∷ chs) d h = cc
update-Holds zero (suc c) (ch ∷ chs) d h = h
update-Holds (suc k) zero (ch ∷ chs) d h = h
update-Holds (suc k) (suc c) (ch ∷ chs) d h = update-Holds k c chs d h

drop_sender-Holds :
    (o : Option ℕ) (c : ℕ) (d : ApprovalDecision) (r : Registry)
    → Holds c d r
    → Holds c d (drop_sender o r)
unfolding drop_sender Holds
drop_sender-Holds none c d r h = h
drop_sender-Holds (some k) c d r h = update-Holds k c r.channels d h

send-Holds :
    (k c : ℕ) (d e : ApprovalDecision) (ch : Channel) (r : Registry)
    → get_elem? r.channels k ≡ some ch
    → Holds c d r
    → Holds c d (send k e ch r).1
unfolding send Holds
send-Holds k c d e waiting r at h =
    get_elem?-set_ne r.channels k c (sent e) (λ same. not_waiting (ap (get_elem? r.channels) same))
    ∙ h
  where
    not_waiting : get_elem? r.channels k ≡ get_elem? r.channels c → ⊥
    not_waiting same = cc
send-Holds k c d e (sent x) r at h = h
send-Holds k c d e sender_gone r at h = h
send-Holds k c d e receiver_gone r at h = h

deliver-Holds :
    (o : Option ℕ) (c : ℕ) (d e : ApprovalDecision) (r : Registry)
    → Holds c d r
    → Holds c d (deliver o e r).1
unfolding deliver
deliver-Holds none c d e r h = h
deliver-Holds (some k) c d e r h = elim (Option-cases (get_elem? r.channels k)) [
  | inl at ↦ rw (at, deliver) h
  | inr (ch, at) ↦ rw (at, deliver) (send-Holds k c d e ch r at h)
]

call-Holds :
    (k : Call) (c : ℕ) (d : ApprovalDecision) (r : Registry) → Holds c d r → Holds c d (call k r)
unfolding Holds register take resolve deliver
call-Holds (registers id) c d r h =
    drop_sender-Holds (find id r.pending) c d _
      (get_elem?-append_left r.channels (waiting ∷ []) c (get_elem?-some_lt r.channels c h) ∙ h)
call-Holds (takes id) c d r h = h
call-Holds (resolves id e) c d r h = deliver-Holds (find id r.pending) c d e (take id r).1 h

-- A decision once sent stays on its channel.
pub calls-keep_sent :
    (ks : List Call) (c : ℕ) (d : ApprovalDecision) (r : Registry)
    → get_elem? r.channels c ≡ some (sent d)
    → get_elem? (calls ks r).channels c ≡ some (sent d)
unfolding Holds
calls-keep_sent [] c d r h = h
calls-keep_sent (k ∷ ks) c d r h = calls-keep_sent ks c d (call k r) (call-Holds k c d r h)
