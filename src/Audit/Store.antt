-- ===== src/Audit/Store.antt =====
-- core/src/audit/store.rs: the bounded ring of audit events. The clock reading is an argument of
-- `record_event`; the mutex makes each operation one step.
pub mod Ring
pub mod History
use smolit_assistant.Base.{
  ℕ, ◌+◌, ◌-◌, ◌*◌, ◌%◌, ◌^◌, String, Bool, ◌&&◌, ◌||◌, not, Option, none, some, List, [], ◌∷◌,
  ◌++◌, Char, code, length, drop, min, eqb, leb, ltb, or_else, is_empty, trim, all_chars, decimal06,
  if◌then◌else◌,
}
use Prim.Native.String
use Prim.Native.String.{◌∷◌ as ◌∷ˢ◌}
use smolit_assistant.Base.Decimal.{value}
use smolit_assistant.Audit.{AuditEvent, AuditFields, AuditKind, sanitized}

abbrev pub default_max_events : ℕ
default_max_events = 100

abbrev pub hard_max_events : ℕ
hard_max_events = 1000

unfoldable pub clamp_capacity : ℕ → ℕ
clamp_capacity requested =
    if eqb requested 0
    then default_max_events
    else if ltb hard_max_events requested
    then hard_max_events
    else requested

abbrev is_digit : Char → Bool
is_digit c = leb b'0' (code c) && leb (code c) b'9'

-- `str::parse::<usize>()`: digits behind an optional plus sign, with a value below 2 ^ 64.
parse_digits : String → Option ℕ
parse_digits s =
    if is_empty s || not (all_chars is_digit s)
    then none
    else if ltb (value 0 s) (2 ^ 64)
    then some (value 0 s)
    else none

parse_usize : String → Option ℕ
unfolding parse_digits
parse_usize String.[] = none
parse_usize (String.◌∷◌ c s) =
    if eqb (code c) b'+' then parse_digits s else parse_digits (String.◌∷◌ c s)

-- The argument is the variable's value, empty if it is not set.
unfoldable pub resolve_capacity_from_env : String → ℕ
unfolding parse_usize trim clamp_capacity
resolve_capacity_from_env raw = clamp_capacity (or_else (parse_usize (trim raw)) default_max_events)

pub record AuditStore : Type 0 where
  pub events : List AuditEvent
  pub capacity : ℕ
  pub counter : ℕ

unfoldable pub with_capacity : ℕ → AuditStore
unfolding clamp_capacity
with_capacity cap = record { events = []; capacity = clamp_capacity cap; counter = 0 }

unfoldable pub new : AuditStore
unfolding with_capacity
new = with_capacity default_max_events

unfoldable pub from_env : String → AuditStore
unfolding with_capacity resolve_capacity_from_env
from_env raw = with_capacity (resolve_capacity_from_env raw)

unfoldable pub len : AuditStore → ℕ
len s = length s.events

unfoldable pub is_empty_store : AuditStore → Bool
unfolding len
is_empty_store s = eqb (len s) 0

-- The counter is a `u64` and wraps; `n` is its next value.
unfoldable pub audit_id_of : ℕ → String
audit_id_of n = String.◌++◌ "aud_" (decimal06 n)

unfoldable pub build_event : ℕ → ℕ → AuditKind → AuditFields → AuditEvent
unfolding audit_id_of
build_event n now kind fields =
    let f = sanitized fields in
    record {
      audit_id = audit_id_of n;
      timestamp_ms = now;
      kind = kind;
      action_id = f.action_id;
      approval_id = f.approval_id;
      risk = f.risk;
      result = f.result;
      source = f.source;
      summary = f.summary;
      correlation_id = f.correlation_id;
      capability_id = f.capability_id;
    }

-- `while events.len() >= capacity { events.pop_front(); }`
evict : ℕ → List AuditEvent → List AuditEvent
evict capacity [] = []
evict capacity (e ∷ es) =
    let rest = evict capacity es in if leb capacity (length (e ∷ es)) then rest else e ∷ es

-- The store after the call, and the event that it holds now.
unfoldable pub record_event : AuditStore → ℕ → AuditKind → AuditFields → AuditStore × AuditEvent
unfolding build_event evict
record_event s now kind fields =
    let n = (s.counter + 1) % 2 ^ 64 in
    let event = build_event n now kind fields in
    (record s { events = evict s.capacity s.events ++ event ∷ []; counter = n }, event)

recent_count : Option ℕ → ℕ → ℕ
recent_count none total = total
recent_count (some n) total = min n total

unfoldable pub list_recent : AuditStore → Option ℕ → List AuditEvent
unfolding recent_count
list_recent s limit =
    let total = length s.events in drop (total - recent_count limit total) s.events

unfoldable pub clear_for_tests : AuditStore → AuditStore
clear_for_tests s = record s { events = [] }
