-- ===== src/InteractionQueue/Timer.antt =====
-- The buffer is bounded, and waits for a timer.
use e621_feed.Base.{
  ℕ, suc, ◌≤◌, ◌<◌, nat_beq, List, [], ◌∷◌, Option, some, none, length, length-append, arith, ◌≡◌,
  refl, ◌≢◌, Option-cases, Bool-cases, inl, inr, All, All-append, ◌⊎◌,
}
use mathlib.Core.Path.{sym, ap, subst, ◌∙◌}
use e621_feed.Base.Text.{Str}
use e621_feed.InteractionQueue.{
  FeedInteractionRequest, Pending, Batch, Queue, Browser, flush, flush_keepalive, schedule_debounce,
  on_timer, push, get_or_insert, pushed_onto, clear_timer,
}
use e621_feed.InteractionQueue.Delivery.{
  buffer, Event, pushes, times_out, unloads, step, run, queue, get_or_insert-buffer,
}

-- A batch that the server's `validate_batch_interaction` takes for its size, with room left.
abbrev pub FitsBatch : Batch → Type 0
FitsBatch b = (1 ≤ length b.payload) × (length b.payload ≤ 60)

pub record IsSettled (q : Queue) : Type 0 where
  pub bounded : length (buffer q.task) < 60
  pub waits : (buffer q.task ≡ []) ⊎ (q.timer_id ≢ 0)
  pub batches : All FitsBatch q.sent

-- The handle of a timer is not 0, as the HTML standard says.
abbrev pub HandlesAreNonzero : Event → Type 0
HandlesAreNonzero (pushes b url req) = b.set_timeout ≢ some 0
HandlesAreNonzero times_out = Unit
HandlesAreNonzero (unloads b) = Unit

flush-IsSettled_parts :
    (t : Option Pending) (i : ℕ) (bs : List Batch)
    → length (buffer t) ≤ 60
    → All FitsBatch bs
    → IsSettled (flush (queue t i bs))
unfolding flush clear_timer
flush-IsSettled_parts none i bs h k = record {
  bounded = omega arith;
  waits = inl refl;
  batches = k;
}
flush-IsSettled_parts (some p) i bs h k = by_buffer p.backend_url p.interactions h
  where
    by_buffer :
        (url : Str) (xs : List FeedInteractionRequest)
        → length xs ≤ 60
        → IsSettled (flush (queue (some (record { backend_url = url; interactions = xs })) i bs))
    by_buffer url [] l = record { bounded = omega arith; waits = inl refl; batches = k }
    by_buffer url (x ∷ xs) l = record {
      bounded = omega arith;
      waits = inl refl;
      batches =
          All-append FitsBatch bs (record { url = url; payload = x ∷ xs } ∷ []) k
            ((omega arith, l), tt);
    }

flush-IsSettled :
    (q : Queue) → length (buffer q.task) ≤ 60 → All FitsBatch q.sent → IsSettled (flush q)
flush-IsSettled q = flush-IsSettled_parts q.task q.timer_id q.sent

keepalive_cases :
    (b : Browser) (q : Queue)
    → (flush_keepalive b q ≡ flush q) ⊎ (flush_keepalive b q ≡ queue none 0 q.sent)
unfolding flush_keepalive flush clear_timer
keepalive_cases b q = ground arith

keepalive-IsSettled : (b : Browser) (q : Queue) → IsSettled q → IsSettled (flush_keepalive b q)
keepalive-IsSettled b q s = elim (keepalive_cases b q) [
  | inl e ↦ subst IsSettled (sym e) (flush-IsSettled q (omega (arith, s.bounded)) s.batches)
  | inr e ↦
      subst IsSettled (sym e)
        (record { bounded = omega arith; waits = inl refl; batches = s.batches })
]

-- Either a flush, or a timer that is already there, or a new one.
schedule_cases :
    (b : Browser) (q : Queue)
    → b.set_timeout ≢ some 0
    → (schedule_debounce b q ≡ flush q)
      ⊎ ((id : ℕ) × (id ≢ 0) × (schedule_debounce b q ≡ record q { timer_id = id }))
unfolding schedule_debounce
schedule_cases b q n = elim (Bool-cases (nat_beq q.timer_id 0)) [
  | inl z ↦ elim (Option-cases b.set_timeout) [
    | inl e ↦ inl (ground arith)
    | inr (id, e) ↦ elim (Bool-cases b.window) [
      | inl w ↦ inr (id, ground arith, ground arith)
      | inr w ↦ inl (ground arith)
    ]
  ]
  | inr z ↦ inr (q.timer_id, ground arith, ground arith)
]

schedule-IsSettled :
    (b : Browser) (q : Queue)
    → b.set_timeout ≢ some 0
    → length (buffer q.task) < 60
    → All FitsBatch q.sent
    → IsSettled (schedule_debounce b q)
schedule-IsSettled b q n l k = elim (schedule_cases b q n) [
  | inl e ↦ subst IsSettled (sym e) (flush-IsSettled q (omega (arith, l)) k)
  | inr (id, z, e) ↦ subst IsSettled (sym e) (record { bounded = l; waits = inr z; batches = k })
]

push_cases :
    (b : Browser) (url : Str) (req : FeedInteractionRequest) (q : Queue)
    → let p = pushed_onto (get_or_insert url q.task) req in
      let q' = record q { task = some p } in
      (push b url req q ≡ flush q')
      ⊎ ((push b url req q ≡ schedule_debounce b q') × (length p.interactions < 60))
unfolding push
push_cases b url req q = ground arith

length-pushed_onto :
    (url : Str) (t : Option Pending) (req : FeedInteractionRequest)
    → length (pushed_onto (get_or_insert url t) req).interactions ≡ suc (length (buffer t))
length-pushed_onto url t req =
    length-append (get_or_insert url t).interactions (req ∷ [])
    ∙ omega (arith, ap length (get_or_insert-buffer url t))

push-IsSettled :
    (b : Browser) (url : Str) (req : FeedInteractionRequest) (q : Queue)
    → b.set_timeout ≢ some 0
    → IsSettled q
    → IsSettled (push b url req q)
push-IsSettled b url req q n s =
    let q' = record q { task = some (pushed_onto (get_or_insert url q.task) req) } in
    elim (push_cases b url req q) [
      | inl e ↦ subst IsSettled (sym e) (
          flush-IsSettled q' (omega (arith, length-pushed_onto url q.task req, s.bounded))
            s.batches)
      | inr (e, l) ↦ subst IsSettled (sym e) (schedule-IsSettled b q' n l s.batches)
    ]

step-IsSettled : (q : Queue) (e : Event) → HandlesAreNonzero e → IsSettled q → IsSettled (step q e)
unfolding step on_timer
step-IsSettled q (pushes b url req) n s = push-IsSettled b url req q n s
step-IsSettled q times_out n s =
    flush-IsSettled (record q { timer_id = 0 }) (omega (arith, s.bounded)) s.batches
step-IsSettled q (unloads b) n s = keepalive-IsSettled b q s

-- However pushes, time-outs and unloads follow each other, the buffer holds fewer than sixty
-- interactions, waits for a timer whenever it holds one, and every batch that was sent has between
-- one and sixty, provided that the handles of timers are not 0.
pub run-IsSettled :
    (q : Queue) (es : List Event) → All HandlesAreNonzero es → IsSettled q → IsSettled (run q es)
unfolding run
run-IsSettled q [] h s = s
run-IsSettled q (e ∷ es) h s = run-IsSettled (step q e) es h.1 (step-IsSettled q e h.0 s)
