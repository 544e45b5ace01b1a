-- ===== src/Queue/Shutdown.antt =====
-- What `stop` drains: the workers leave their loop as soon as `_running` is off.
use indian_sim_sms_gateway.Prelude.{
  ℕ, ◌+◌, ◌≤◌, ◌≡◌, refl, ◌≢◌, ap, ◌∙◌, false, Option, none, some, List, [], ◌∷◌, ◌++◌, arith, set,
  length, get_elem?, All, length-append, ⊤,
}
use indian_sim_sms_gateway.Message.{QueuedMessage, queued, processing}
use indian_sim_sms_gateway.Queue.State.{
  Phase, created, polling, crashed, consuming, falling_back, backing_off, requeueing, capturing,
  MessageQueue,
}
use indian_sim_sms_gateway.Queue.Step.{
  Outcome, returned, raised, Step?, loop_test, put_item, enqueue, take_head, requeue, wake_up,
  on_captured,
}
use indian_sim_sms_gateway.Queue.Run.{
  begin_stop, end_stop, Move, begins, get_times_out, takes, wakes, puts, answers, move, Event,
  enqueues, gives_up, starts, stops, stop_ends, worker, move_at, step, advance, run,
}
use indian_sim_sms_gateway.Queue.Frame.{
  placed_in, taken_out, finish-Keeps, try_consumer-Dispatches, on_consumer-Dispatches,
  on_fallback-Dispatches,
}
use indian_sim_sms_gateway.Queue.Order.{run_fifo, taken_out-append, cancel_all-Queues}
use indian_sim_sms_gateway.Queue.Waiting.{
  waiting, waits-set, finish-waits, try_consumer-waits, on_consumer-waits, on_fallback-waits,
}

-- The items after the first.
abbrev tail : {A : Type 0} → List A → List A
tail [] = []
tail (x ∷ xs) = xs

-- With `_running` off: it stays off, and a worker that takes an item waits no more.
abbrev Winds : MessageQueue → Step? → Type 0
Winds q none = ⊤
Winds q (some (q', fx)) = (q'.running ≡ false) × (length (taken_out fx) + waiting q' ≤ waiting q)

take_head-Winds :
    (items : List QueuedMessage) (q : MessageQueue) (w : ℕ)
    → get_elem? q.workers w ≡ some polling
    → q.running ≡ false
    → Winds q (take_head items q w)
unfolding take_head
take_head-Winds [] q w here off = tt
take_head-Winds (m ∷ rest) q w here off =
    let q' = record q { items = rest } in
    let m' = record m { status = processing } in
    let (kept, _, none_taken) = try_consumer-Dispatches q' w m' 0 in
    (
      kept.running ∙ off,
      omega (arith, try_consumer-waits w polling q' m' 0 here off, ap length none_taken),
    )

requeue-Winds :
    (q : MessageQueue) (w : ℕ) (p : Phase) (m : QueuedMessage)
    → get_elem? q.workers w ≡ some p
    → q.running ≡ false
    → Winds q (requeue q w m)
unfolding requeue
requeue-Winds q w p m here off =
    ground (arith, finish-waits w p (put_item m q) here off, finish-Keeps (put_item m q) w)

wake_up-Winds :
    (q : MessageQueue) (w : ℕ) (p : Phase) (m : QueuedMessage)
    → get_elem? q.workers w ≡ some p
    → q.running ≡ false
    → Winds q (wake_up q w m)
unfolding wake_up
wake_up-Winds q w p m here off =
    let m' = record m { status = queued } in
    ground (arith, requeue-Winds q w p m' here off, waits-set q w p here (requeueing m'))

on_captured-Winds :
    (q : MessageQueue) (w : ℕ) (p : Phase) (m : QueuedMessage) (o : Outcome)
    → get_elem? q.workers w ≡ some p
    → q.running ≡ false
    → Winds q (on_captured q w m o)
unfolding on_captured
on_captured-Winds q w p m (returned b) here off =
    ground (arith, finish-waits w p q here off, finish-Keeps q w)
on_captured-Winds q w p m (raised e) here off = ground (arith, waits-set q w p here crashed)

loop_test-Winds :
    (q : MessageQueue) (w : ℕ) (p : Phase)
    → get_elem? q.workers w ≡ some p
    → q.running ≡ false
    → Winds q (some (record q { workers = set q.workers w (loop_test q.running) }, []))
loop_test-Winds q w p here off = ground (arith, waits-set q w p here (loop_test q.running))

move-Winds :
    (p : Phase) (mv : Move) (q : MessageQueue) (w : ℕ)
    → get_elem? q.workers w ≡ some p
    → q.running ≡ false
    → Winds q (move p mv q w)
unfolding move
move-Winds created begins q w here off = loop_test-Winds q w created here off
move-Winds polling get_times_out q w here off = loop_test-Winds q w polling here off
move-Winds polling takes q w here off = take_head-Winds q.items q w here off
move-Winds (consuming m i) (answers o) q w here off =
    ground (
      arith,
      on_consumer-Dispatches q w m i o,
      on_consumer-waits w (consuming m i) q m i o here off,
    )
move-Winds (falling_back m) (answers o) q w here off =
    ground
      (arith, on_fallback-Dispatches q w m o, on_fallback-waits w (falling_back m) q m o here off)
move-Winds (backing_off m s) wakes q w here off = wake_up-Winds q w (backing_off m s) m here off
move-Winds (requeueing m) puts q w here off = requeue-Winds q w (requeueing m) m here off
move-Winds (capturing m) (answers o) q w here off = on_captured-Winds q w (capturing m) m o here off
move-Winds _ _ q w here off = tt

move_at-Winds :
    (o : Option Phase) (mv : Move) (q : MessageQueue) (w : ℕ)
    → get_elem? q.workers w ≡ o
    → q.running ≡ false
    → Winds q (move_at o mv q w)
move_at-Winds none mv q w here off = tt
move_at-Winds (some p) mv q w here off = move-Winds p mv q w here off

step-Winds : (e : Event) (q : MessageQueue) → q.running ≡ false → e ≢ starts → Winds q (step e q)
unfolding step begin_stop end_stop enqueue
step-Winds (enqueues m) q off n = ground arith
step-Winds (gives_up m) q off n = (off, omega arith)
step-Winds starts q off n = absurd (n refl)
step-Winds stops q off n = (refl, omega arith)
step-Winds stop_ends q off n = ground (arith, cancel_all-Queues q.workers)
step-Winds (worker w mv) q off n = move_at-Winds (get_elem? q.workers w) mv q w refl off

advance-Winds :
    (s : Step?) (q : MessageQueue) → q.running ≡ false → Winds q s → Winds q (some (advance s q))
advance-Winds none q off h = (off, omega arith)
advance-Winds (some s) q off h = h

run-Winds :
    (es : List Event) (q : MessageQueue)
    → q.running ≡ false
    → All (λ e. e ≢ starts) es
    → length (taken_out (run es q).1) ≤ waiting q
unfolding run
run-Winds [] q off n = omega arith
run-Winds (e ∷ es) q off n =
    let (q', fx) = advance (step e q) q in
    let here = advance-Winds (step e q) q off (step-Winds e q off n.0) in
    omega (
      arith,
      here,
      run-Winds es q' here.0 n.1,
      ap length (taken_out-append fx (run es q').1),
      length-append (taken_out fx) (taken_out (run es q').1),
    )

-- If the same list begins with xs, and with cs, all of xs but what cs covers is left after cs.
split_after :
    {A : Type 0} (xs ys cs ds : List A)
    → cs ++ ds ≡ xs ++ ys
    → (gone kept new : List A) × (xs ≡ gone ++ kept)
      × (ds ≡ kept ++ new)
      × (length gone ≤ length cs)
split_after xs ys [] ds e = ([], xs, ys, refl, e, omega arith)
split_after [] ys (c ∷ cs) ds e = ([], [], ds, refl, refl, omega arith)
split_after (x ∷ xs) ys (c ∷ cs) ds e =
    let (gone, kept, new, first, rest, short) = split_after xs ys cs ds (ap tail e) in
    (x ∷ gone, kept, new, ap (λ l. x ∷ l) first, rest, omega (arith, short))

-- `stop` does not drain the queue: once `_running` is off, after every interleaving in which nobody
-- calls `start`, however long it is, the queue begins with the very items that it had, in their
-- order, but for some at the front, at most one for each worker that waits in `get` by then; what
-- came in since stands behind them.
pub stop_keeps_items :
    (es : List Event) (q : MessageQueue)
    → q.running ≡ false
    → All (λ e. e ≢ starts) es
    → (gone kept new : List QueuedMessage) × (q.items ≡ gone ++ kept)
      × ((run es q).0.items ≡ kept ++ new)
      × (length gone ≤ waiting q)
stop_keeps_items es q off n =
    let (q', fx) = run es q in
    let (gone, kept, new, first, rest, short) =
      split_after q.items (placed_in fx) (taken_out fx) q'.items (run_fifo es q) in
    (gone, kept, new, first, rest, omega (arith, short, run-Winds es q off n))
