-- ===== src/Audit/Store/History.antt =====
-- The ring of core/src/audit/store.rs against the whole history of recorded events.
use smolit_assistant.Base.{
  ℕ, suc, ◌+◌, ◌-◌, ◌%◌, ◌^◌, ◌≤◌, ◌<◌, ◌≡◌, sym, ap, subst, ◌∙◌, ◌≢◌, some, append-nil,
  append_assoc, List, [], ◌∷◌, ◌++◌, length, drop, min, All, length-drop, drop-drop, arith,
}
use smolit_assistant.Base.Decimal.{decimal06_inj}
use text.Mathlib.TextLemmas.{append_cancel_left}
use smolit_assistant.Audit.{AuditEvent}
use smolit_assistant.Audit.Store.{
  AuditStore, with_capacity, clamp_capacity, record_event, list_recent, audit_id_of,
}
use smolit_assistant.Audit.Store.Ring.{
  last_n, last_n_all, last_n_absorb, recorded_events, IsRing, record_event-IsRing,
  with_capacity-IsRing, Entry, record_all,
}

-- After any calls the ring holds the last `capacity` events of the history: those it held before,
-- followed by those recorded.
pub record_all_events :
    (s : AuditStore) (calls : List Entry)
    → IsRing s
    → let (t, events) = record_all s calls in t.events ≡ last_n s.capacity (s.events ++ events)
unfolding record_all record_event
record_all_events s [] r = rw append-nil (sym (last_n_all s.capacity s.events r.bounded))
record_all_events s ((now, kind, fields) ∷ rest) r =
    let t = (record_event s now kind fields).0 in
    let e = (record_event s now kind fields).1 in
    let later = (record_all t rest).1 in
    record_all_events t rest (record_event-IsRing s now kind fields r)
    ∙ ap (λ l. last_n s.capacity (l ++ later)) (recorded_events s now kind fields r.roomy)
    ∙ last_n_absorb s.capacity (s.events ++ e ∷ []) later
    ∙ ap (last_n s.capacity) (append_assoc s.events (e ∷ []) later)

last_n_twice {ℓ} :
    {A : Type ℓ} (m n : ℕ) (xs : List A) → last_n m (last_n n xs) ≡ last_n (min m n) xs
last_n_twice m n xs =
    drop-drop (length (last_n n xs) - m) (length xs - n) xs
    ∙ ap (λ d. drop d xs) (omega (arith, length-drop (length xs - n) xs))

list_recent_lem : (t : AuditStore) (n : ℕ) → list_recent t (some n) ≡ last_n n t.events
unfolding list_recent
list_recent_lem t n = ap (λ d. drop d t.events) (dropped (length t.events))
  where
    dropped : (total : ℕ) → total - min n total ≡ total - n
    dropped total = omega arith

-- Asking for the newest `n` events of a store that was created and then used answers with the
-- newest events of the whole history, in order: `n` of them, or as many as the ring has places.
pub list_recent_history :
    (requested n : ℕ) (calls : List Entry)
    → let (t, events) = record_all (with_capacity requested) calls in
      list_recent t (some n) ≡ last_n (min n (clamp_capacity requested)) events
list_recent_history requested n calls =
    let s = with_capacity requested in
    let events = (record_all s calls).1 in
    list_recent_lem (record_all s calls).0 n
    ∙ ap (last_n n) (record_all_events s calls (with_capacity-IsRing requested))
    ∙ unfold with_capacity in last_n_twice n (clamp_capacity requested) events

numbered_next : (k n : ℕ) → k + suc n < 2 ^ 64 → (k + 1) % 2 ^ 64 ≡ suc k
numbered_next k n h = omega arith

-- The identifiers count on from `n`.
abbrev pub Numbered : ℕ → List AuditEvent → Type 0
Numbered n [] = Unit
Numbered n (e ∷ es) = (e.audit_id ≡ audit_id_of (suc n)) × Numbered (suc n) es

record_all-Numbered :
    (s : AuditStore) (calls : List Entry)
    → s.counter + length calls < 2 ^ 64
    → Numbered s.counter (record_all s calls).1
unfolding record_all record_event
record_all-Numbered s [] h = tt
record_all-Numbered s ((now, kind, fields) ∷ rest) h =
    let t = (record_event s now kind fields).0 in
    let next : t.counter ≡ suc s.counter = numbered_next s.counter (length rest) h in
    (
      ap audit_id_of next,
      subst (λ k. Numbered k (record_all t rest).1) next
          (record_all-Numbered t rest (rw next (omega arith))),
    )

audit_id_of_inj : (m n : ℕ) → audit_id_of m ≡ audit_id_of n → m ≡ n
unfolding audit_id_of
audit_id_of_inj m n e = decimal06_inj m n (append_cancel_left "aud_" _ _ e)

later_ids :
    (m n : ℕ) (es : List AuditEvent)
    → m ≤ n
    → Numbered n es
    → All (λ e. e.audit_id ≢ audit_id_of m) es
later_ids m n [] h k = tt
later_ids m n (e ∷ es) h (k, ks) = (
  λ same. absurd (omega (arith, audit_id_of_inj (suc n) m (sym k ∙ same))),
  later_ids m (suc n) es (omega arith) ks,
)

-- No event carries the identifier of an earlier one.
abbrev pub Distinct : List AuditEvent → Type 0
Distinct [] = Unit
Distinct (e ∷ es) = All (λ f. f.audit_id ≢ e.audit_id) es × Distinct es

Numbered-Distinct : (n : ℕ) (es : List AuditEvent) → Numbered n es → Distinct es
Numbered-Distinct n [] k = tt
Numbered-Distinct n (e ∷ es) (k, ks) =
    (rw k (later_ids (suc n) (suc n) es (omega arith) ks), Numbered-Distinct (suc n) es ks)

-- Until the 64-bit counter wraps, all recorded events have distinct identifiers.
pub record_all-Distinct :
    (s : AuditStore) (calls : List Entry)
    → s.counter + length calls < 2 ^ 64
    → Distinct (record_all s calls).1
record_all-Distinct s calls h = Numbered-Distinct s.counter _ (record_all-Numbered s calls h)
