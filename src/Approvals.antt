-- ===== src/Approvals.antt =====
-- core/src/approvals/state.rs: the registry of pending approvals, over one-shot channels. A channel
-- is a place in a store; the registry holds the sending end of each pending approval, the waiting
-- task the receiving end.
pub mod Delivery
pub mod Calls
pub mod Sound
pub mod Final
pub mod Unapproved
use smolit_assistant.Base.{
  ℕ, zero, suc, String, Option, none, some, List, [], ◌∷◌, ◌++◌, length, get_elem?, set, ◌==◌,
  if◌then◌else◌,
}
use smolit_assistant.Messages.{ApprovalDecision}

-- `waiting`: both ends are there and nothing was sent.
pub data Channel : Type 0 where
  waiting : Channel
  sent : ApprovalDecision → Channel
  sender_gone : Channel
  receiver_gone : Channel

pub record Registry : Type 0 where
  pub pending : List (String × ℕ)
  pub channels : List Channel

unfoldable pub new : Registry
new = record { pending = []; channels = [] }

-- `HashMap::get` and `HashMap::remove`, on an association list.
unfoldable pub find : String → List (String × ℕ) → Option ℕ
find id [] = none
find id ((k, c) ∷ m) = if k == id then some c else find id m

unfoldable pub remove : String → List (String × ℕ) → List (String × ℕ)
remove id [] = []
remove id ((k, c) ∷ m) = let rest = remove id m in if k == id then rest else (k, c) ∷ rest

-- Dropping the sending end wakes a receiver that still waits.
unfoldable pub drop_sender_of : Channel → Channel
drop_sender_of waiting = sender_gone
drop_sender_of ch = ch

unfoldable pub drop_receiver_of : Channel → Channel
drop_receiver_of ch = receiver_gone

-- The channel at a place of the store, changed.
abbrev pub update : (Channel → Channel) → ℕ → List Channel → List Channel
update f c [] = []
update f zero (ch ∷ chs) = f ch ∷ chs
update f (suc c) (ch ∷ chs) = ch ∷ update f c chs

unfoldable pub drop_sender : Option ℕ → Registry → Registry
unfolding drop_sender_of
drop_sender none r = r
drop_sender (some c) r = record r { channels = update drop_sender_of c r.channels }

unfoldable pub drop_receiver : ℕ → Registry → Registry
unfolding drop_receiver_of
drop_receiver c r = record r { channels = update drop_receiver_of c r.channels }

-- A new channel under the identifier; an older sender under it is dropped. The place of the channel
-- stands for the receiving end that the caller keeps.
unfoldable pub register : String → Registry → ℕ × Registry
unfolding drop_sender find remove
register id r =
    let c = length r.channels in
    let older = find id r.pending in
    (
      c,
      drop_sender older (record r {
        pending = (id, c) ∷ remove id r.pending;
        channels = r.channels ++ waiting ∷ [];
      }),
    )

-- The sending end, taken out of the registry.
unfoldable pub take : String → Registry → Option ℕ × Registry
unfolding find remove
take id r = (find id r.pending, record r { pending = remove id r.pending })

pub data PendingApprovalError : Type 0 where
  unknown_id closed : PendingApprovalError

unfoldable pub error_text : PendingApprovalError → String
error_text unknown_id = "unknown approval id"
error_text closed = "approval waiter already dropped"

-- `oneshot::Sender::send`: refused if the receiving end is gone.
unfoldable pub send :
    ℕ → ApprovalDecision → Channel → Registry → Option PendingApprovalError × Registry
send c d waiting r = (none, record r { channels = set r.channels c (sent d) })
send c d ch r = (some closed, r)

unfoldable pub deliver :
    Option ℕ → ApprovalDecision → Registry → Option PendingApprovalError × Registry
unfolding send
deliver none d r = (some unknown_id, r)
deliver (some c) d r = elim (get_elem? r.channels c) [
  | none ↦ (some closed, r)
  | some ch ↦ send c d ch r
]

-- The error, or `none` for `Ok(())`.
unfoldable pub resolve :
    String → ApprovalDecision → Registry → Option PendingApprovalError × Registry
unfolding deliver take
resolve id d r = let (sender, r') = take id r in deliver sender d r'
