-- ===== src/InteractionQueue/Delivery.antt =====
-- What is pushed is sent once, in order.
use e621_feed.Base.{ℕ, true, List, [], ◌∷◌, ◌++◌, Option, some, none, arith, ◌≡◌, refl, All}
use e621_feed.Base.Text.{Str}
use e621_feed.InteractionQueue.{
  FeedInteractionRequest, Pending, Batch, Queue, Browser, flush, flush_keepalive, schedule_debounce,
  on_timer, push, get_or_insert, pushed_onto, clear_timer,
}
use mathlib.Core.List.{append_assoc, append-nil}
use mathlib.Core.Path.{ap, sym, ◌∙◌}

abbrev pub buffer : Option Pending → List FeedInteractionRequest
buffer none = []
buffer (some p) = p.interactions

abbrev pub payloads : List Batch → List FeedInteractionRequest
payloads [] = []
payloads (b ∷ bs) = b.payload ++ payloads bs

-- All that the queue took: what it sent, then what it holds.
abbrev pub taken_in : Queue → List FeedInteractionRequest
taken_in q = payloads q.sent ++ buffer q.task

pub payloads-append : (xs ys : List Batch) → payloads (xs ++ ys) ≡ payloads xs ++ payloads ys
payloads-append [] ys = refl
payloads-append (x ∷ xs) ys =
    ap (λ r. x.payload ++ r) (payloads-append xs ys)
    ∙ sym (append_assoc x.payload (payloads xs) (payloads ys))

sent_whole :
    (q : Queue) (url : Str) (xs : List FeedInteractionRequest)
    → payloads (q.sent ++ record { url = url; payload = xs } ∷ []) ++ [] ≡ payloads q.sent ++ xs
sent_whole q url xs = rw (
  append-nil (payloads (q.sent ++ record { url = url; payload = xs } ∷ [])),
  payloads-append q.sent (record { url = url; payload = xs } ∷ []),
  append-nil xs,
)

abbrev pub queue : Option Pending → ℕ → List Batch → Queue
queue t i bs = record { task = t; timer_id = i; sent = bs }

taken_in-flush_parts :
    (t : Option Pending) (i : ℕ) (bs : List Batch)
    → taken_in (flush (queue t i bs)) ≡ taken_in (queue t i bs)
unfolding flush clear_timer
taken_in-flush_parts none i bs = refl
taken_in-flush_parts (some p) i bs = by_buffer p.backend_url p.interactions
  where
    by_buffer :
        (url : Str) (xs : List FeedInteractionRequest)
        → taken_in (flush (queue (some (record { backend_url = url; interactions = xs })) i bs))
          ≡ payloads bs ++ xs
    by_buffer url [] = refl
    by_buffer url (x ∷ xs) = sent_whole (queue none i bs) url (x ∷ xs)

-- A flush loses nothing.
taken_in-flush : (q : Queue) → taken_in (flush q) ≡ taken_in q
taken_in-flush q = taken_in-flush_parts q.task q.timer_id q.sent

taken_in-schedule_debounce :
    (b : Browser) (q : Queue) → taken_in (schedule_debounce b q) ≡ taken_in q
unfolding schedule_debounce
taken_in-schedule_debounce b q = ground (arith, taken_in-flush q)

taken_in-on_timer : (q : Queue) → taken_in (on_timer q) ≡ taken_in q
unfolding on_timer
taken_in-on_timer q = taken_in-flush (record q { timer_id = 0 })

pub get_or_insert-buffer :
    (url : Str) (t : Option Pending) → (get_or_insert url t).interactions ≡ buffer t
get_or_insert-buffer url none = refl
get_or_insert-buffer url (some p) = refl

taken_in-buffered :
    (q : Queue) (url : Str) (req : FeedInteractionRequest)
    → taken_in (record q { task = some (pushed_onto (get_or_insert url q.task) req) })
      ≡ taken_in q ++ req ∷ []
taken_in-buffered q url req =
    ap (λ xs. payloads q.sent ++ (xs ++ req ∷ [])) (get_or_insert-buffer url q.task)
    ∙ sym (append_assoc (payloads q.sent) (buffer q.task) (req ∷ []))

-- With an interaction pushed, the queue has taken it in after all that came before.
taken_in-push :
    (b : Browser) (url : Str) (req : FeedInteractionRequest) (q : Queue)
    → taken_in (push b url req q) ≡ taken_in q ++ req ∷ []
unfolding push
taken_in-push b url req q =
    let q' = record q { task = some (pushed_onto (get_or_insert url q.task) req) } in
    ground (arith, taken_in-flush q', taken_in-schedule_debounce b q', taken_in-buffered q url req)

-- Unloading loses nothing either, with a window and a request that can be made.
taken_in-flush_keepalive :
    (b : Browser) (q : Queue)
    → b.window ≡ true
    → b.request ≡ true
    → taken_in (flush_keepalive b q) ≡ taken_in q
unfolding flush_keepalive flush
taken_in-flush_keepalive b q h k = ground (arith, taken_in-flush q)

-- What happens to the queue: an interaction is pushed, the timer runs out, or the page goes away.
pub data Event : Type 0 where
  pushes : Browser → Str → FeedInteractionRequest → Event
  times_out : Event
  unloads : Browser → Event

unfoldable pub step : Queue → Event → Queue
step q (pushes b url req) = push b url req q
step q times_out = on_timer q
step q (unloads b) = flush_keepalive b q

unfoldable pub run : Queue → List Event → Queue
run q [] = q
run q (e ∷ es) = run (step q e) es

abbrev pub requests : List Event → List FeedInteractionRequest
requests [] = []
requests (pushes b url req ∷ es) = req ∷ requests es
requests (times_out ∷ es) = requests es
requests (unloads b ∷ es) = requests es

-- A page that is unloaded still has its window, and can make its last request.
abbrev pub CanSend : Event → Type 0
CanSend (pushes b url req) = Unit
CanSend times_out = Unit
CanSend (unloads b) = (b.window ≡ true) × (b.request ≡ true)

-- Whatever the order of pushes, time-outs and unloads, the batches that were sent and the buffer
-- hold, in order and once each, what the queue had taken in before and then what was pushed, as
-- long as a page that is unloaded has its window and its last request can be made.
pub taken_in-run :
    (q : Queue) (es : List Event) → All CanSend es → taken_in (run q es) ≡ taken_in q ++ requests es
unfolding run step
taken_in-run q [] h = sym (append-nil (taken_in q))
taken_in-run q (pushes b url req ∷ es) h =
    taken_in-run (push b url req q) es h.1
    ∙ ap (λ xs. xs ++ requests es) (taken_in-push b url req q)
    ∙ append_assoc (taken_in q) (req ∷ []) (requests es)
taken_in-run q (times_out ∷ es) h =
    taken_in-run (on_timer q) es h.1 ∙ ap (λ xs. xs ++ requests es) (taken_in-on_timer q)
taken_in-run q (unloads b ∷ es) h =
    taken_in-run (flush_keepalive b q) es h.1
    ∙ ap (λ xs. xs ++ requests es) (taken_in-flush_keepalive b q h.0.0 h.0.1)
