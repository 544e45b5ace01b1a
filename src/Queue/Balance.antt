-- ===== src/Queue/Balance.antt =====
-- The counters of the queue against its effects.
use indian_sim_sms_gateway.Prelude.{
  ℕ, ◌+◌, ◌≡◌, refl, true, false, Option, none, some, List, [], ◌∷◌, arith, total, total-append, ⊤,
  get_elem?,
}
use indian_sim_sms_gateway.Prelude.Text.{Text}
use indian_sim_sms_gateway.Message.{QueuedMessage, processing, queued}
use indian_sim_sms_gateway.Queue.State.{
  Phase, created, polling, consuming, falling_back, backing_off, requeueing, capturing,
  MessageQueue,
}
use indian_sim_sms_gateway.Queue.Step.{
  Outcome, returned, raised, Effect, was_delivered, was_dead_lettered, abandoned, Effects, Step?,
  finish, deliver, dead_letter, handle_failure, try_fallback, try_consumer, on_consumer,
  on_fallback, enqueue, take_head, requeue, wake_up, on_captured,
}
use indian_sim_sms_gateway.Queue.Run.{
  start, begin_stop, cancel_all, end_stop, Move, begins, get_times_out, takes, wakes, puts, answers,
  move, Event, enqueues, gives_up, starts, stops, stop_ends, worker, move_at, step, advance, run,
}
use indian_sim_sms_gateway.Queue.Flow.{load, inflow, outflow, inflow_of}
use indian_sim_sms_gateway.Queue.Conservation.{run-conserves}

-- Each message weighs 1.
abbrev pub one : Text → ℕ
one id = 1

abbrev pub delivered_of : Effect → ℕ
delivered_of (was_delivered m) = 1
delivered_of e = 0

abbrev pub dead_lettered_of : Effect → ℕ
dead_lettered_of (was_dead_lettered m) = 1
dead_lettered_of e = 0

abbrev pub abandoned_of : Effect → ℕ
abandoned_of (abandoned m) = 1
abandoned_of e = 0

-- The messages of workers that were cancelled.
abbrev pub lost : Effects → ℕ
lost = total abandoned_of

-- The counters have gone up by what happened.
pub record Counts (q : MessageQueue) (s : MessageQueue × Effects) : Type 0 where
  pub enqueued : s.0.total_enqueued ≡ q.total_enqueued + inflow one s.1
  pub delivered : s.0.total_delivered ≡ q.total_delivered + total delivered_of s.1
  pub dead_lettered : s.0.total_dead_lettered ≡ q.total_dead_lettered + total dead_lettered_of s.1
  pub failed : s.0.total_failed ≡ q.total_failed + total dead_lettered_of s.1

abbrev Counts? : MessageQueue → Step? → Type 0
Counts? q none = ⊤
Counts? q (some s) = Counts q s

deliver-Counts : (q : MessageQueue) (w : ℕ) (m : QueuedMessage) → Counts q (deliver q w m)
unfolding deliver finish
deliver-Counts q w m = ground arith

dead_letter-Counts : (q : MessageQueue) (w : ℕ) (m : QueuedMessage) → Counts q (dead_letter q w m)
unfolding dead_letter finish
dead_letter-Counts q w m = ground arith

handle_failure-Counts :
    (q : MessageQueue) (w : ℕ) (m : QueuedMessage) → Counts q (handle_failure q w m)
unfolding handle_failure
handle_failure-Counts q w m =
    ground (arith, dead_letter-Counts q w (record m { retry_count = m.retry_count + 1 }))

try_fallback-Counts : (q : MessageQueue) (w : ℕ) (m : QueuedMessage) → Counts q (try_fallback q w m)
unfolding try_fallback
try_fallback-Counts q w m = ground (arith, handle_failure-Counts q w m)

try_consumer-Counts :
    (q : MessageQueue) (w : ℕ) (m : QueuedMessage) (i : ℕ) → Counts q (try_consumer q w m i)
unfolding try_consumer
try_consumer-Counts q w m i = ground (arith, try_fallback-Counts q w m)

on_consumer-Counts :
    (q : MessageQueue) (w : ℕ) (m : QueuedMessage) (i : ℕ) (o : Outcome)
    → Counts q (on_consumer q w m i o)
unfolding on_consumer
on_consumer-Counts q w m i (returned true) = deliver-Counts q w m
on_consumer-Counts q w m i (returned false) = try_consumer-Counts q w m (i + 1)
on_consumer-Counts q w m i (raised e) =
    try_consumer-Counts q w (record m { last_error = e }) (i + 1)

on_fallback-Counts :
    (q : MessageQueue) (w : ℕ) (m : QueuedMessage) (o : Outcome) → Counts q (on_fallback q w m o)
unfolding on_fallback
on_fallback-Counts q w m (returned true) = deliver-Counts q w m
on_fallback-Counts q w m (returned false) = handle_failure-Counts q w m
on_fallback-Counts q w m (raised e) = handle_failure-Counts q w (record m { last_error = e })

take_head-Counts :
    (items : List QueuedMessage) (q : MessageQueue) (w : ℕ) → Counts? q (take_head items q w)
unfolding take_head
take_head-Counts [] q w = tt
take_head-Counts (m ∷ rest) q w =
    let c =
      try_consumer-Counts (record q { items = rest }) w (record m { status = processing }) 0 in
    record {
      enqueued = omega (arith, c.enqueued);
      delivered = omega (arith, c.delivered);
      dead_lettered = omega (arith, c.dead_lettered);
      failed = omega (arith, c.failed);
    }

requeue-Counts : (q : MessageQueue) (w : ℕ) (m : QueuedMessage) → Counts? q (requeue q w m)
unfolding requeue finish
requeue-Counts q w m = ground arith

wake_up-Counts : (q : MessageQueue) (w : ℕ) (m : QueuedMessage) → Counts? q (wake_up q w m)
unfolding wake_up
wake_up-Counts q w m = ground (arith, requeue-Counts q w (record m { status = queued }))

on_captured-Counts :
    (q : MessageQueue) (w : ℕ) (m : QueuedMessage) (o : Outcome) → Counts? q (on_captured q w m o)
unfolding on_captured finish
on_captured-Counts q w m (returned b) = ground arith
on_captured-Counts q w m (raised e) = ground arith

move-Counts : (p : Phase) (mv : Move) (q : MessageQueue) (w : ℕ) → Counts? q (move p mv q w)
unfolding move
move-Counts created begins q w = ground arith
move-Counts polling get_times_out q w = ground arith
move-Counts polling takes q w = take_head-Counts q.items q w
move-Counts (consuming m i) (answers o) q w = on_consumer-Counts q w m i o
move-Counts (falling_back m) (answers o) q w = on_fallback-Counts q w m o
move-Counts (backing_off m s) wakes q w = wake_up-Counts q w m
move-Counts (requeueing m) puts q w = requeue-Counts q w m
move-Counts (capturing m) (answers o) q w = on_captured-Counts q w m o
move-Counts _ _ q w = tt

move_at-Counts :
    (o : Option Phase) (mv : Move) (q : MessageQueue) (w : ℕ) → Counts? q (move_at o mv q w)
move_at-Counts none mv q w = tt
move_at-Counts (some p) mv q w = move-Counts p mv q w

pub cancel_all-uncounted :
    (ps : List Phase)
    → (inflow one (cancel_all ps) ≡ 0)
      × (total delivered_of (cancel_all ps) ≡ 0)
      × (total dead_lettered_of (cancel_all ps) ≡ 0)
unfolding cancel_all
cancel_all-uncounted [] = (refl, refl, refl)
cancel_all-uncounted (p ∷ ps) = ground (arith, cancel_all-uncounted ps)

pub step-Counts : (e : Event) (q : MessageQueue) → Counts? q (step e q)
unfolding step start begin_stop end_stop enqueue
step-Counts (enqueues m) q = ground arith
step-Counts (gives_up m) q = ground arith
step-Counts starts q = ground arith
step-Counts stops q = ground arith
step-Counts stop_ends q = ground (arith, cancel_all-uncounted q.workers)
step-Counts (worker w mv) q = move_at-Counts (get_elem? q.workers w) mv q w

pub advance-Counts : (s : Step?) (q : MessageQueue) → Counts? q s → Counts q (advance s q)
advance-Counts none q c = ground arith
advance-Counts (some s) q c = c

run-Counts : (es : List Event) (q : MessageQueue) → Counts q (run es q)
unfolding run
run-Counts [] q = ground arith
run-Counts (e ∷ es) q =
    let (q', fx) = advance (step e q) q in
    let fx' = (run es q').1 in
    ground (
      arith,
      advance-Counts (step e q) q (step-Counts e q),
      run-Counts es q',
      total-append (inflow_of one) fx fx',
      total-append delivered_of fx fx',
      total-append dead_lettered_of fx fx',
    )

outflow-one :
    (fx : Effects) → outflow one fx ≡ total delivered_of fx + total dead_lettered_of fx + lost fx
outflow-one [] = refl
outflow-one (e ∷ fx) = ground (arith, outflow-one fx)

-- What was enqueued is in the queue or in a worker's hands, or was delivered, dead-lettered, or
-- given up with a worker; and what failed was dead-lettered.
abbrev pub IsBalanced : ℕ → MessageQueue → Type 0
IsBalanced given_up q =
    (q.total_enqueued ≡ load one q + q.total_delivered + q.total_dead_lettered + given_up)
    × (q.total_failed ≡ q.total_dead_lettered)

-- If the metrics balance, they do after every interleaving: the messages counted as enqueued are
-- those in the queue or in a worker's hands, those counted as delivered, those counted as
-- dead-lettered, and those whose worker was cancelled; and each dead-lettered one is counted
-- once as failed.
pub run-IsBalanced :
    (es : List Event) (q : MessageQueue) (given_up : ℕ)
    → IsBalanced given_up q
    → let (q', fx) = run es q in IsBalanced (given_up + lost fx) q'
run-IsBalanced es q given_up b =
    let c = run-Counts es q in
    omega (
      arith,
      c.enqueued,
      c.delivered,
      c.dead_lettered,
      c.failed,
      run-conserves one es q,
      outflow-one (run es q).1,
    )
