-- ===== src/Queue/Order.antt =====
-- The queue is first in, first out, whatever the priorities, and never holds more than its limit.
use indian_sim_sms_gateway.Prelude.{
  ℕ, ◌≡◌, refl, sym, ◌∙◌, ap, ◌⊎◌, Option, none, some, List, [], ◌∷◌, ◌++◌, arith, length,
  get_elem?, length-append, ⊤,
}
use indian_sim_sms_gateway.Prelude.Int.{pos, ◌≤ℤ◌}
use indian_sim_sms_gateway.Message.{QueuedMessage, queued, processing}
use indian_sim_sms_gateway.Queue.State.{
  Phase, created, polling, consuming, falling_back, backing_off, requeueing, capturing,
  MessageQueue,
}
use indian_sim_sms_gateway.Queue.Step.{
  Outcome, returned, raised, Effects, Step?, put_item, enqueue, take_head, requeue, wake_up,
  on_captured,
}
use indian_sim_sms_gateway.Queue.Run.{
  start, begin_stop, cancel_all, end_stop, Move, begins, get_times_out, takes, wakes, puts, answers,
  move, Event, enqueues, gives_up, starts, stops, stop_ends, worker, move_at, step, advance, run,
}
use indian_sim_sms_gateway.Queue.Frame.{
  placed_in, taken_out, finish-Keeps, try_consumer-Dispatches, on_consumer-Dispatches,
  on_fallback-Dispatches,
}
use mathlib.Core.List.{append-nil, append_assoc}

-- The queue has no limit, or holds at most that many items.
abbrev pub IsWithin : MessageQueue → Type 0
IsWithin q = (q.max_size ≤ℤ pos 0) ⊎ (pos (length q.items) ≤ℤ q.max_size)

-- A step's items, in order: those that left and those that stay are those that were there and
-- those that came. The limit is kept.
abbrev Queues : MessageQueue → Step? → Type 0
Queues q none = ⊤
Queues q (some (q', fx)) =
    (taken_out fx ++ q'.items ≡ q.items ++ placed_in fx) × (IsWithin q → IsWithin q')

take_head-Queues :
    (items : List QueuedMessage) (q : MessageQueue) (w : ℕ)
    → q.items ≡ items
    → Queues q (take_head items q w)
unfolding take_head
take_head-Queues [] q w e = tt
take_head-Queues (m ∷ rest) q w e =
    let q' = record q { items = rest } in
    let (kept, no_put, no_take) =
      try_consumer-Dispatches q' w (record m { status = processing }) 0 in
    ground (arith, append-nil (m ∷ rest), ap length e)

requeue-Queues : (q : MessageQueue) (w : ℕ) (m : QueuedMessage) → Queues q (requeue q w m)
unfolding requeue
requeue-Queues q w m = ground (arith, finish-Keeps (put_item m q) w, length-append q.items (m ∷ []))

wake_up-Queues : (q : MessageQueue) (w : ℕ) (m : QueuedMessage) → Queues q (wake_up q w m)
unfolding wake_up
wake_up-Queues q w m =
    ground (arith, requeue-Queues q w (record m { status = queued }), append-nil q.items)

on_captured-Queues :
    (q : MessageQueue) (w : ℕ) (m : QueuedMessage) (o : Outcome) → Queues q (on_captured q w m o)
unfolding on_captured
on_captured-Queues q w m (returned b) = ground (arith, finish-Keeps q w, append-nil q.items)
on_captured-Queues q w m (raised e) = ground (arith, append-nil q.items)

enqueue-Queues : (m : QueuedMessage) (q : MessageQueue) → Queues q (enqueue m q)
unfolding enqueue
enqueue-Queues m q = ground (arith, length-append q.items (m ∷ []))

move-Queues : (p : Phase) (mv : Move) (q : MessageQueue) (w : ℕ) → Queues q (move p mv q w)
unfolding move
move-Queues created begins q w = ground (arith, append-nil q.items)
move-Queues polling get_times_out q w = ground (arith, append-nil q.items)
move-Queues polling takes q w = take_head-Queues q.items q w refl
move-Queues (consuming m i) (answers o) q w =
    ground (arith, on_consumer-Dispatches q w m i o, append-nil q.items)
move-Queues (falling_back m) (answers o) q w =
    ground (arith, on_fallback-Dispatches q w m o, append-nil q.items)
move-Queues (backing_off m s) wakes q w = wake_up-Queues q w m
move-Queues (requeueing m) puts q w = requeue-Queues q w m
move-Queues (capturing m) (answers o) q w = on_captured-Queues q w m o
move-Queues _ _ q w = tt

-- A cancellation moves no item.
pub cancel_all-Queues :
    (ps : List Phase) → (placed_in (cancel_all ps) ≡ []) × (taken_out (cancel_all ps) ≡ [])
unfolding cancel_all
cancel_all-Queues [] = (refl, refl)
cancel_all-Queues (p ∷ ps) = ground (arith, cancel_all-Queues ps)

move_at-Queues :
    (o : Option Phase) (mv : Move) (q : MessageQueue) (w : ℕ) → Queues q (move_at o mv q w)
move_at-Queues none mv q w = tt
move_at-Queues (some p) mv q w = move-Queues p mv q w

step-Queues : (e : Event) (q : MessageQueue) → Queues q (step e q)
unfolding step start begin_stop end_stop
step-Queues (enqueues m) q = enqueue-Queues m q
step-Queues (gives_up m) q = ground (arith, append-nil q.items)
step-Queues starts q = ground (arith, append-nil q.items)
step-Queues stops q = ground (arith, append-nil q.items)
step-Queues stop_ends q = ground (arith, append-nil q.items, cancel_all-Queues q.workers)
step-Queues (worker w mv) q = move_at-Queues (get_elem? q.workers w) mv q w

advance-Queues : (s : Step?) (q : MessageQueue) → Queues q s → Queues q (some (advance s q))
advance-Queues none q h = (rw append-nil, λ v. v)
advance-Queues (some s) q h = h

placed_in-append : (fx fx' : Effects) → placed_in (fx ++ fx') ≡ placed_in fx ++ placed_in fx'
placed_in-append [] fx' = refl
placed_in-append (e ∷ fx) fx' = ground (arith, placed_in-append fx fx')

pub taken_out-append : (fx fx' : Effects) → taken_out (fx ++ fx') ≡ taken_out fx ++ taken_out fx'
taken_out-append [] fx' = refl
taken_out-append (e ∷ fx) fx' = ground (arith, taken_out-append fx fx')

-- Over every interleaving the items leave in the order in which they came, whatever their
-- priorities: those taken, then those still there, are those there before, then those that came.
pub run_fifo :
    (es : List Event) (q : MessageQueue)
    → let (q', fx) = run es q in taken_out fx ++ q'.items ≡ q.items ++ placed_in fx
unfolding run
run_fifo [] q = rw append-nil
run_fifo (e ∷ es) q =
    let (q', fx) = advance (step e q) q in
    let (q'', fx') = run es q' in
    let here = (advance-Queues (step e q) q (step-Queues e q)).0 in
    simp (placed_in-append fx fx', taken_out-append fx fx', append_assoc)
      (ap (λ l. taken_out fx ++ l) (run_fifo es q')
        ∙ sym (append_assoc (taken_out fx) q'.items (placed_in fx'))
        ∙ ap (λ l. l ++ placed_in fx') here
        ∙ append_assoc q.items (placed_in fx) (placed_in fx'))

-- A queue that has no limit, or holds no more items than it, stays so over every interleaving,
-- also with the retries that workers put back.
pub run-IsWithin : (es : List Event) (q : MessageQueue) → IsWithin q → IsWithin (run es q).0
unfolding run
run-IsWithin [] q h = h
run-IsWithin (e ∷ es) q h =
    run-IsWithin es (advance (step e q) q).0 ((advance-Queues (step e q) q (step-Queues e q)).1 h)
