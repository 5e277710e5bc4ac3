-- ===== src/Audit/Store/Ring.antt =====
-- The ring of core/src/audit/store.rs: capacity and eviction.
use smolit_assistant.Base.{
  ℕ, zero, suc, ◌+◌, ◌-◌, ◌%◌, ◌^◌, ◌≤◌, ◌<◌, ◌≡◌, sym, ap, ◌∙◌, List, [], ◌∷◌, ◌++◌, length, drop,
  length-append, length-drop, drop-append, drop-drop, arith,
}
use native.Mathlib.Decide.{dec_le}
use smolit_assistant.Audit.{AuditEvent, AuditFields, AuditKind}
use smolit_assistant.Audit.Store.{
  AuditStore, with_capacity, evict, record_event, build_event, hard_max_events,
}

-- The last `n` entries of a list.
abbrev pub last_n {ℓ} : {A : Type ℓ} → ℕ → List A → List A
last_n n xs = drop (length xs - n) xs

length-last_n {ℓ} : {A : Type ℓ} (n : ℕ) (xs : List A) → length (last_n n xs) ≤ n
length-last_n n xs = omega (arith, length-drop (length xs - n) xs)

last_n-cons {ℓ} :
    {A : Type ℓ} (k : ℕ) (e : A) (es : List A) → k ≤ length es → last_n k (e ∷ es) ≡ last_n k es
last_n-cons k e es h = ap (λ d. drop d (e ∷ es)) (later (length es) h)
  where
    later : (n : ℕ) → k ≤ n → suc n - k ≡ suc (n - k)
    later n h = omega arith

pub last_n_all {ℓ} : {A : Type ℓ} (k : ℕ) (es : List A) → length es ≤ k → last_n k es ≡ es
last_n_all k es h = ap (λ d. drop d es) (none_dropped (length es) h)
  where
    none_dropped : (n : ℕ) → n ≤ k → n - k ≡ 0
    none_dropped n h = omega arith

evict_full :
    (k : ℕ) (e : AuditEvent) (es : List AuditEvent)
    → k ≤ length es
    → evict (suc k) (e ∷ es) ≡ evict (suc k) es
unfolding evict
evict_full k e es h = ground arith

evict_room :
    (k : ℕ) (e : AuditEvent) (es : List AuditEvent)
    → length es < k
    → evict (suc k) (e ∷ es) ≡ e ∷ es
unfolding evict
evict_room k e es h = ground arith

-- Evicting for a ring of `k + 1` places leaves the last `k` events.
evict_lem : (k : ℕ) (es : List AuditEvent) → evict (suc k) es ≡ last_n k es
evict_lem k [] = unfold evict in sym (last_n_all k [] (omega arith))
evict_lem k (e ∷ es) = elim (dec_le k (length es)) [
  | yes full ↦ evict_full k e es full ∙ evict_lem k es ∙ sym (last_n-cons k e es full)
  | no room ↦ evict_room k e es (omega arith) ∙ sym (last_n_all k (e ∷ es) (omega arith))
]

-- Forgetting all but the last `n` entries early makes no difference.
pub last_n_absorb {ℓ} :
    {A : Type ℓ} (n : ℕ) (xs ys : List A) → last_n n (last_n n xs ++ ys) ≡ last_n n (xs ++ ys)
last_n_absorb {A} n xs ys =
    ap (last_n n) (sym (drop-append d xs ys (omega arith)))
    ∙ drop-drop (length (drop d zs) - n) d zs
    ∙ ap (λ k. drop k zs) (omega (arith, length-drop d zs, length-append xs ys))
  where
    d : ℕ
    d = length xs - n

    zs : List A
    zs = xs ++ ys

last_n-append_one :
    (k : ℕ) (e : AuditEvent) (es : List AuditEvent)
    → last_n k es ++ e ∷ [] ≡ last_n (suc k) (es ++ e ∷ [])
last_n-append_one k e es =
    sym (drop-append (length es - k) es (e ∷ []) (omega arith))
    ∙ ap (λ d. drop d (es ++ e ∷ [])) (omega (arith, length-append es (e ∷ [])))

-- One record: the new event comes last, and of the events before it the newest stay.
pub recorded_events :
    (s : AuditStore) (now : ℕ) (kind : AuditKind) (fields : AuditFields)
    → 1 ≤ s.capacity
    → let (s', event) = record_event s now kind fields in
      s'.events ≡ last_n s.capacity (s.events ++ event ∷ [])
unfolding record_event
recorded_events s now kind fields h =
    by_capacity s.capacity s.events (build_event ((s.counter + 1) % 2 ^ 64) now kind fields) h
  where
    by_capacity :
        (cap : ℕ) (es : List AuditEvent) (e : AuditEvent)
        → 1 ≤ cap
        → evict cap es ++ e ∷ [] ≡ last_n cap (es ++ e ∷ [])
    by_capacity zero es e h = absurd (omega arith)
    by_capacity (suc k) es e h = ap (λ l. l ++ e ∷ []) (evict_lem k es) ∙ last_n-append_one k e es

-- A store as the factories build it and the operations leave it.
pub record IsRing (s : AuditStore) : Type 0 where
  pub roomy : 1 ≤ s.capacity
  pub capped : s.capacity ≤ hard_max_events
  pub bounded : length s.events ≤ s.capacity

-- Every requested capacity, zero and huge ones included, gives a ring of 1 to 1000 places.
pub with_capacity-IsRing : (requested : ℕ) → IsRing (with_capacity requested)
unfolding with_capacity
with_capacity-IsRing requested = ground arith

-- Recording an event keeps the ring within its capacity, and the capacity as it was.
pub record_event-IsRing :
    (s : AuditStore) (now : ℕ) (kind : AuditKind) (fields : AuditFields)
    → IsRing s
    → IsRing (record_event s now kind fields).0
record_event-IsRing s now kind fields r = record {
  roomy = unfold record_event in r.roomy;
  capped = unfold record_event in r.capped;
  bounded =
      rw (recorded_events s now kind fields r.roomy)
        (unfold record_event in length-last_n s.capacity _);
}

-- A call of the store: the clock reading, the kind and the fields.
abbrev pub Entry : Type 0
Entry = ℕ × AuditKind × AuditFields

-- The store after a list of calls, and the events that the calls returned.
unfoldable pub record_all : AuditStore → List Entry → AuditStore × List AuditEvent
record_all s [] = (s, [])
record_all s ((now, kind, fields) ∷ rest) =
    let (t, event) = record_event s now kind fields in
    let (u, events) = record_all t rest in (u, event ∷ events)
