-- ===== src/Approvals/Unapproved.antt =====
-- Channels that hold an approval, in the registry of core/src/approvals/state.rs.
use smolit_assistant.Base.{
  ℕ, zero, suc, ◌≡◌, ◌≢◌, ap, String, Option, none, some, List, [], ◌∷◌, ◌++◌, get_elem?, set,
  or_else, Option-cases, inl, inr,
}
use smolit_assistant.Messages.{ApprovalDecision, approved}
use smolit_assistant.Approvals.{
  Registry, Channel, waiting, sent, sender_gone, receiver_gone, new, find, register, take, resolve,
  deliver, send, update, drop_sender, drop_sender_of, drop_receiver, drop_receiver_of,
}

-- No channel holds an approval.
unfoldable pub Unapproved : Registry → Type 0
Unapproved r = (c : ℕ) → get_elem? r.channels c ≢ some (sent approved)

of_update :
    (f : Channel → Channel) (k c : ℕ) (chs : List Channel)
    → ((ch : Channel) → f ch ≡ sent approved → ch ≡ sent approved)
    → get_elem? (update f k chs) c ≡ some (sent approved)
    → get_elem? chs c ≡ some (sent approved)
of_update f k c [] keep h = h
of_update f zero zero (ch ∷ chs) keep h = ap some (keep ch (ap (λ o. or_else o (f ch)) h))
of_update f zero (suc c) (ch ∷ chs) keep h = h
of_update f (suc k) zero (ch ∷ chs) keep h = h
of_update f (suc k) (suc c) (ch ∷ chs) keep h = of_update f k c chs keep h

of_set :
    (v : Channel) (k c : ℕ) (chs : List Channel)
    → v ≢ sent approved
    → get_elem? (set chs k v) c ≡ some (sent approved)
    → get_elem? chs c ≡ some (sent approved)
of_set v k c [] other h = h
of_set v zero zero (ch ∷ chs) other h = absurd (other (ap (λ o. or_else o v) h))
of_set v zero (suc c) (ch ∷ chs) other h = h
of_set v (suc k) zero (ch ∷ chs) other h = h
of_set v (suc k) (suc c) (ch ∷ chs) other h = of_set v k c chs other h

of_append :
    (c : ℕ) (chs : List Channel)
    → get_elem? (chs ++ waiting ∷ []) c ≡ some (sent approved)
    → get_elem? chs c ≡ some (sent approved)
of_append zero [] h = cc
of_append (suc c) [] h = h
of_append zero (ch ∷ chs) h = h
of_append (suc c) (ch ∷ chs) h = of_append c chs h

keep_sender : (ch : Channel) → drop_sender_of ch ≡ sent approved → ch ≡ sent approved
unfolding drop_sender_of
keep_sender waiting h = cc
keep_sender (sent d) h = h
keep_sender sender_gone h = h
keep_sender receiver_gone h = h

keep_receiver : (ch : Channel) → drop_receiver_of ch ≡ sent approved → ch ≡ sent approved
unfolding drop_receiver_of
keep_receiver ch h = cc

drop_sender-Unapproved : (o : Option ℕ) (r : Registry) → Unapproved r → Unapproved (drop_sender o r)
unfolding drop_sender Unapproved
drop_sender-Unapproved none r u = u
drop_sender-Unapproved (some k) r u =
    λ c h. u c (of_update drop_sender_of k c r.channels keep_sender h)

pub new-Unapproved : Unapproved new
unfolding Unapproved new
new-Unapproved = λ c h. cc

pub register-Unapproved : (id : String) (r : Registry) → Unapproved r → Unapproved (register id r).1
unfolding register Unapproved
register-Unapproved id r u =
    drop_sender-Unapproved (find id r.pending) _ (λ c h. u c (of_append c r.channels h))

pub take-Unapproved : (id : String) (r : Registry) → Unapproved r → Unapproved (take id r).1
unfolding take Unapproved
take-Unapproved id r u = u

pub drop_receiver-Unapproved :
    (k : ℕ) (r : Registry) → Unapproved r → Unapproved (drop_receiver k r)
unfolding drop_receiver Unapproved
drop_receiver-Unapproved k r u =
    λ c h. u c (of_update drop_receiver_of k c r.channels keep_receiver h)

send-Unapproved :
    (k : ℕ) (d : ApprovalDecision) (ch : Channel) (r : Registry)
    → d ≢ approved
    → Unapproved r
    → Unapproved (send k d ch r).1
unfolding send Unapproved
send-Unapproved k d waiting r other u =
    λ c h. u c (of_set (sent d) k c r.channels (λ e. other (sent_inj e)) h)
  where
    sent_inj : sent d ≡ sent approved → d ≡ approved
    sent_inj e = cc
send-Unapproved k d (sent e) r other u = u
send-Unapproved k d sender_gone r other u = u
send-Unapproved k d receiver_gone r other u = u

deliver-Unapproved :
    (o : Option ℕ) (d : ApprovalDecision) (r : Registry)
    → d ≢ approved
    → Unapproved r
    → Unapproved (deliver o d r).1
unfolding deliver
deliver-Unapproved none d r other u = u
deliver-Unapproved (some c) d r other u = elim (Option-cases (get_elem? r.channels c)) [
  | inl e ↦ rw (e, deliver) u
  | inr (ch, e) ↦ rw (e, deliver) (send-Unapproved c d ch r other u)
]

pub resolve-Unapproved :
    (id : String) (d : ApprovalDecision) (r : Registry)
    → d ≢ approved
    → Unapproved r
    → Unapproved (resolve id d r).1
unfolding resolve
resolve-Unapproved id d r other u =
    deliver-Unapproved (find id r.pending) d (take id r).1 other (take-Unapproved id r u)
