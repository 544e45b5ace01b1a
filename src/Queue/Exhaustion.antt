-- ===== src/Queue/Exhaustion.antt =====
-- How often a message is tried before it is dead-lettered: every interleaving.
use indian_sim_sms_gateway.Prelude.{
  ℕ, ◌≡◌, refl, Option, none, some, List, [], ◌∷◌, arith, get_elem?, All, All-append, All-get_elem?,
  All-replicate, replicate, ⊤,
}
use indian_sim_sms_gateway.Prelude.Int.{pos_part}
use indian_sim_sms_gateway.Message.{QueuedMessage}
use indian_sim_sms_gateway.Queue.State.{
  Phase, created, polling, exited, crashed, consuming, falling_back, backing_off, requeueing,
  capturing, MessageQueue,
}
use indian_sim_sms_gateway.Queue.Step.{
  Outcome, returned, raised, Step?, loop_test, enqueue, on_captured,
}
use indian_sim_sms_gateway.Queue.Run.{
  start, begin_stop, cancel, cancel_all, end_stop, Move, begins, get_times_out, takes, wakes, puts,
  answers, move, Event, enqueues, gives_up, starts, stops, stop_ends, worker, move_at, step,
  advance, run,
}
use indian_sim_sms_gateway.Queue.Retries.{
  IsLive, IsLivePhase, IsExhausted, AllLive, Good, Good?, at_phase-AllLive, loop_test-IsLivePhase,
  finish-AllLive, put_item-AllLive, on_consumer-Good, on_fallback-Good, take_head-Good,
  requeue-Good, wake_up-Good,
}

on_captured-Good :
    (q : MessageQueue) (w : ℕ) (m : QueuedMessage) (o : Outcome)
    → AllLive q
    → Good? (on_captured q w m o)
unfolding on_captured
on_captured-Good q w m (returned b) h = (finish-AllLive q w h, (tt, tt))
on_captured-Good q w m (raised e) h = (at_phase-AllLive q w crashed h tt, (tt, tt))

move-Good :
    (p : Phase) (mv : Move) (q : MessageQueue) (w : ℕ)
    → AllLive q
    → IsLivePhase p
    → Good? (move p mv q w)
unfolding move
move-Good created begins q w h l =
    (at_phase-AllLive q w (loop_test q.running) h (loop_test-IsLivePhase q.running), tt)
move-Good polling get_times_out q w h l =
    (at_phase-AllLive q w (loop_test q.running) h (loop_test-IsLivePhase q.running), tt)
move-Good polling takes q w h l = take_head-Good q.items q w h.0 h
move-Good (consuming m i) (answers o) q w h l = on_consumer-Good q w m i o h l
move-Good (falling_back m) (answers o) q w h l = on_fallback-Good q w m o h l
move-Good (backing_off m s) wakes q w h l = wake_up-Good q w m h l
move-Good (requeueing m) puts q w h l = requeue-Good q w m h l
move-Good (capturing m) (answers o) q w h l = on_captured-Good q w m o h
move-Good _ _ q w h l = tt

move_at-Good :
    (o : Option Phase) (mv : Move) (q : MessageQueue) (w : ℕ)
    → get_elem? q.workers w ≡ o
    → AllLive q
    → Good? (move_at o mv q w)
move_at-Good none mv q w here h = tt
move_at-Good (some p) mv q w here h =
    move-Good p mv q w h (All-get_elem? IsLivePhase q.workers w h.1 here)

cancel_all-IsExhausted : (ps : List Phase) → All IsExhausted (cancel_all ps)
unfolding cancel_all
cancel_all-IsExhausted [] = tt
cancel_all-IsExhausted (p ∷ ps) =
    All-append IsExhausted (cancel p) (cancel_all ps) (one p) (cancel_all-IsExhausted ps)
  where
    one : (p : Phase) → All IsExhausted (cancel p)
    one created = tt
    one polling = tt
    one exited = tt
    one crashed = tt
    one (consuming m i) = (tt, tt)
    one (falling_back m) = (tt, tt)
    one (backing_off m s) = (tt, tt)
    one (requeueing m) = (tt, tt)
    one (capturing m) = (tt, tt)

-- The messages that producers bring may be tried.
abbrev pub BringsLive : Event → Type 0
BringsLive (enqueues m) = IsLive m
BringsLive _ = ⊤

start-AllLive : (q : MessageQueue) → AllLive q → AllLive (start q).0
unfolding start
start-AllLive q h =
    let n = pos_part q.concurrency in
    let more =
      All-append IsLivePhase q.workers (replicate n created) h.1
        (All-replicate IsLivePhase n created tt) in
    ground (arith, more)

step-Good : (e : Event) (q : MessageQueue) → AllLive q → BringsLive e → Good? (step e q)
unfolding step begin_stop end_stop enqueue
step-Good (enqueues m) q h l = ground (arith, put_item-AllLive q m h l)
step-Good (gives_up m) q h l = (h, (tt, tt))
step-Good starts q h l = (start-AllLive q h, tt)
step-Good stops q h l = (h, tt)
step-Good stop_ends q h l = ground (arith, cancel_all-IsExhausted q.workers)
step-Good (worker w mv) q h l = move_at-Good (get_elem? q.workers w) mv q w refl h

advance-Good : (s : Step?) (q : MessageQueue) → AllLive q → Good? s → Good (advance s q)
advance-Good none q h g = (h, tt)
advance-Good (some s) q h g = g

-- From a queue whose messages, also those in the workers' hands, are new or have retries left,
-- over every interleaving in which producers bring such messages: every message that is held
-- stays such a one, and one that is dead-lettered has its status, and has failed exactly
-- `max_retries` times, or once if that is not positive.
pub run-IsExhausted :
    (es : List Event) (q : MessageQueue)
    → AllLive q
    → All BringsLive es
    → AllLive (run es q).0 × All IsExhausted (run es q).1
unfolding run
run-IsExhausted [] q h l = (h, tt)
run-IsExhausted (e ∷ es) q h l =
    let (q', fx) = advance (step e q) q in
    let here = advance-Good (step e q) q h (step-Good e q h l.0) in
    let later = run-IsExhausted es q' here.0 l.1 in
    (later.0, All-append IsExhausted fx (run es q').1 here.1 later.1)
