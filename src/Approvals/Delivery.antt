-- ===== src/Approvals/Delivery.antt =====
-- Delivery of decisions by the registry of core/src/approvals/state.rs.
use smolit_assistant.Base.{
  ℕ, zero, suc, ◌<◌, ◌≡◌, ◌≢◌, refl, ap, ◌∙◌, String, Option, none, some, List, [], ◌∷◌, ◌++◌,
  length, get_elem?, set, ◌==◌, eq_iff, eq_refl, get_elem?-set_self, get_elem?-append_end,
  get_elem?-some_lt, if◌then◌else◌, Option-cases, inl, inr, arith,
}
use smolit_assistant.Messages.{ApprovalDecision}
use smolit_assistant.Approvals.{
  Registry, Channel, waiting, sent, sender_gone, receiver_gone, find, remove, register, take,
  resolve, deliver, send, update, drop_sender, drop_sender_of, unknown_id,
}

pub find-remove :
    (id j : String) (m : List (String × ℕ))
    → find j (remove id m) ≡ (if id == j then none else find j m)
unfolding find remove
find-remove id j [] = ground arith
find-remove id j ((k, c) ∷ m) =
    ground (arith, eq_iff k id, eq_iff k j, eq_iff id j, find-remove id j m)

pub find-remove_self : (id : String) (m : List (String × ℕ)) → find id (remove id m) ≡ none
find-remove_self id m = find-remove id id m ∙ rw eq_refl

send-pending :
    (c : ℕ) (d : ApprovalDecision) (ch : Channel) (r : Registry)
    → (send c d ch r).1.pending ≡ r.pending
unfolding send
send-pending c d waiting r = refl
send-pending c d (sent e) r = refl
send-pending c d sender_gone r = refl
send-pending c d receiver_gone r = refl

pub deliver-pending :
    (s : Option ℕ) (d : ApprovalDecision) (r : Registry) → (deliver s d r).1.pending ≡ r.pending
unfolding deliver
deliver-pending none d r = refl
deliver-pending (some c) d r = elim (Option-cases (get_elem? r.channels c)) [
  | inl e ↦ rw (e, deliver)
  | inr (ch, e) ↦ rw (e, deliver) (send-pending c d ch r)
]

resolve-pending :
    (id : String) (d : ApprovalDecision) (r : Registry)
    → (resolve id d r).1.pending ≡ remove id r.pending
unfolding resolve take
resolve-pending id d r = deliver-pending (find id r.pending) d (take id r).1

resolve_unknown :
    (id : String) (d : ApprovalDecision) (r : Registry)
    → find id r.pending ≡ none
    → resolve id d r ≡ (some unknown_id, (take id r).1)
unfolding resolve take
resolve_unknown id d r h = rw (h, deliver)

-- After an answer for an identifier, whatever came of it, a second answer finds no such approval and
-- changes no channel.
pub resolve_twice :
    (id : String) (d e : ApprovalDecision) (r : Registry)
    → let r' = (resolve id d r).1 in
      ((resolve id e r').0 ≡ some unknown_id) × ((resolve id e r').1.channels ≡ r'.channels)
unfolding take
resolve_twice id d e r =
    let r' = (resolve id d r).1 in
    let gone =
      resolve_unknown id e r'
        (ap (find id) (resolve-pending id d r) ∙ find-remove_self id r.pending) in
    (ap (λ p. p.0) gone, ap (λ p. p.1.channels) gone)

-- The same holds after the waiting task took the entry out on its timeout: a late answer is refused.
pub resolve-take :
    (id : String) (d : ApprovalDecision) (r : Registry)
    → let r' = (take id r).1 in
      ((resolve id d r').0 ≡ some unknown_id) × ((resolve id d r').1.channels ≡ r'.channels)
unfolding take
resolve-take id d r =
    let r' = (take id r).1 in
    let gone = resolve_unknown id d r' (find-remove_self id r.pending) in
    (ap (λ p. p.0) gone, ap (λ p. p.1.channels) gone)

deliver_waiting :
    (c : ℕ) (d : ApprovalDecision) (r : Registry)
    → get_elem? r.channels c ≡ some waiting
    → deliver (some c) d r ≡ (none, record r { channels = set r.channels c (sent d) })
unfolding deliver send
deliver_waiting c d r h = rw (h, deliver)

-- An answer for a pending approval whose task still waits is delivered on its channel.
pub resolve_delivers :
    (id : String) (d : ApprovalDecision) (r : Registry) (c : ℕ)
    → find id r.pending ≡ some c
    → get_elem? r.channels c ≡ some waiting
    → ((resolve id d r).0 ≡ none) × (get_elem? (resolve id d r).1.channels c ≡ some (sent d))
unfolding resolve take
resolve_delivers id d r c found h =
    rw (found, deliver_waiting c d (take id r).1 h)
      (refl, get_elem?-set_self r.channels c (sent d) (get_elem?-some_lt r.channels c h))

-- Every pending approval has a channel in the store.
pub record IsSound (r : Registry) : Type 0 where
  pub in_store : (id : String) (c : ℕ) → find id r.pending ≡ some c → c < length r.channels

get_elem?-update_ne :
    (f : Channel → Channel) (k j : ℕ) (chs : List Channel)
    → k ≢ j
    → get_elem? (update f k chs) j ≡ get_elem? chs j
get_elem?-update_ne f k j [] h = refl
get_elem?-update_ne f zero zero (ch ∷ chs) h = absurd (h refl)
get_elem?-update_ne f zero (suc j) (ch ∷ chs) h = refl
get_elem?-update_ne f (suc k) zero (ch ∷ chs) h = refl
get_elem?-update_ne f (suc k) (suc j) (ch ∷ chs) h =
    get_elem?-update_ne f k j chs (λ e. h (ap suc e))

pub drop_sender-pending : (o : Option ℕ) (r : Registry) → (drop_sender o r).pending ≡ r.pending
unfolding drop_sender
drop_sender-pending none r = refl
drop_sender-pending (some c) r = refl

register_found :
    (id : String) (r : Registry) → find id (register id r).1.pending ≡ some (length r.channels)
unfolding register find
register_found id r = rw (drop_sender-pending (find id r.pending) _) (rw eq_refl)

register_fresh :
    (id : String) (r : Registry)
    → IsSound r
    → get_elem? (register id r).1.channels (length r.channels) ≡ some waiting
unfolding register drop_sender
register_fresh id r sound = elim (Option-cases (find id r.pending)) [
  | inl e ↦ rw e (get_elem?-append_end r.channels waiting)
  | inr (k, e) ↦ rw e (
      get_elem?-update_ne drop_sender_of k (length r.channels) (r.channels ++ waiting ∷ [])
        (λ same. absurd (omega (arith, sound.in_store id k e)))
      ∙ get_elem?-append_end r.channels waiting)
]

-- A new registration waits on a fresh channel: an answer for it is delivered there.
pub register-resolve :
    (id : String) (d : ApprovalDecision) (r : Registry)
    → IsSound r
    → let (c, r') = register id r in
      ((resolve id d r').0 ≡ none) × (get_elem? (resolve id d r').1.channels c ≡ some (sent d))
unfolding register
register-resolve id d r sound =
    resolve_delivers id d (register id r).1 (length r.channels) (register_found id r)
      (register_fresh id r sound)
