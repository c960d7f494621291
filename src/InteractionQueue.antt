-- ===== src/InteractionQueue.antt =====
-- parser-web/src/interaction_queue.rs: the browser's buffer of feed interactions, which goes to
-- `/interaction/batch`. An operation takes what the browser answers: whether `window()` is there,
-- whether a request can be made, and the handle that `set_timeout` gives, if it gives one. A batch counts as sent when its request
-- is handed to the browser; serializing it does not fail, and the answer is not waited for.
pub mod Delivery
pub mod Timer
use e621_feed.Base.{
  ℕ, zero, suc, leb, nat_beq, Bool, true, false, not, ◌||◌, List, [], ◌∷◌, ◌++◌, Option, some, none,
  if◌then◌else◌, length,
}
use e621_feed.Base.Int.{ℤ}
use e621_feed.Base.Text.{Str}

pub data FeedInteractionType : Type 0 where
  qualified_impression opened : FeedInteractionType

pub record FeedInteractionRequest : Type 0 where
  pub account_id : ℤ
  pub post_id : ℤ
  pub event_type : FeedInteractionType
  pub position : ℤ
  pub session_id : Str

pub record Pending : Type 0 where
  pub backend_url : Str
  pub interactions : List FeedInteractionRequest

pub record Batch : Type 0 where
  pub url : Str
  pub payload : List FeedInteractionRequest

-- `TASK` and `TIMER_ID`, with what was sent, in order.
pub record Queue : Type 0 where
  pub task : Option Pending
  pub timer_id : ℕ
  pub sent : List Batch

-- What the browser answers; `request` says whether `Request::new_with_str_and_init` succeeds.
pub record Browser : Type 0 where
  pub window : Bool
  pub request : Bool
  pub set_timeout : Option ℕ

abbrev pub flush_at : ℕ
flush_at = 60

abbrev pub explicit : FeedInteractionType → Bool
explicit qualified_impression = false
explicit opened = true

unfoldable pub clear_timer : Queue → Queue
clear_timer q = record q { timer_id = 0 }

abbrev pub is_empty_buffer : List FeedInteractionRequest → Bool
is_empty_buffer [] = true
is_empty_buffer (x ∷ xs) = false

abbrev pub send_batch : Queue → Pending → Queue
send_batch q p = record q {
  sent = q.sent ++ record { url = p.backend_url; payload = p.interactions } ∷ [];
}

unfoldable pub flush : Queue → Queue
unfolding clear_timer
flush q = elim q.task [
  | none ↦ clear_timer q
  | some p ↦
      let taken = record (clear_timer q) { task = none } in
      if is_empty_buffer p.interactions then taken else send_batch taken p
]

-- The request outlives the document; without a window, or when it cannot be made, the buffer that
-- was taken is dropped.
unfoldable pub flush_keepalive : Browser → Queue → Queue
unfolding clear_timer
flush_keepalive b q = elim q.task [
  | none ↦ clear_timer q
  | some p ↦
      let taken = record (clear_timer q) { task = none } in
      if is_empty_buffer p.interactions
      then taken
      else if not b.window
      then taken
      else if not b.request
      then taken
      else send_batch taken p
]

unfoldable pub schedule_debounce : Browser → Queue → Queue
unfolding flush
schedule_debounce b q =
    if not (nat_beq q.timer_id 0)
    then q
    else if not b.window
    then flush q
    else elim b.set_timeout [ none ↦ flush q | some id ↦ record q { timer_id = id } ]

-- The closure that the timer runs.
unfoldable pub on_timer : Queue → Queue
unfolding flush
on_timer q = flush (record q { timer_id = 0 })

abbrev pub get_or_insert : Str → Option Pending → Pending
get_or_insert url none = record { backend_url = url; interactions = [] }
get_or_insert url (some p) = p

abbrev pub pushed_onto : Pending → FeedInteractionRequest → Pending
pushed_onto p req = record p { interactions = p.interactions ++ req ∷ [] }

unfoldable pub push : Browser → Str → FeedInteractionRequest → Queue → Queue
unfolding flush schedule_debounce
push b url req q =
    let p = pushed_onto (get_or_insert url q.task) req in
    let q' = record q { task = some p } in
    if explicit req.event_type || leb flush_at (length p.interactions)
    then flush q'
    else schedule_debounce b q'
