-- ===== src/Queue/Run.antt =====
-- backend/message_queue.py: `start`, `stop`, and the interleavings of the producers, the workers
-- and the task that calls `start` and `stop`.
use indian_sim_sms_gateway.Prelude.{
  ℕ, ◌+◌, ◌-◌, ◌==◌, true, false, Option, none, some, List, [], ◌∷◌, ◌++◌, get_elem?, replicate,
  is_empty, if◌then◌else◌,
}
use indian_sim_sms_gateway.Prelude.Int.{pos_part}
use indian_sim_sms_gateway.Message.{QueuedMessage}
use indian_sim_sms_gateway.Queue.State.{
  Phase, created, polling, exited, crashed, consuming, falling_back, backing_off, requeueing,
  capturing, MessageQueue,
}
use indian_sim_sms_gateway.Queue.Step.{
  Outcome, refused, was_not_captured, abandoned, Effects, Step?, at_phase, loop_test, on_consumer,
  on_fallback, on_captured, enqueue, take_head, requeue, wake_up,
}

pub data Started : Type 0 where
  -- the log says so; RuntimeError; the workers are up
  already_running no_consumers workers_started : Started

-- `range(n)` has no element if n is negative.
unfoldable pub start : MessageQueue → MessageQueue × Started
start q =
    if q.running
    then (q, already_running)
    else if is_empty q.consumers
    then (q, no_consumers)
    else (
      record q {
        running = true;
        workers = q.workers ++ replicate (pos_part q.concurrency) created;
      },
      workers_started,
    )

-- `stop` up to the wait for `self._queue.join()`.
unfoldable pub begin_stop : MessageQueue → MessageQueue
begin_stop q = record q { running = false; stopping = q.stopping + 1 }

-- What is lost when a worker is cancelled: `except Exception` does not catch a cancellation.
abbrev pub cancel : Phase → Effects
cancel created = []
cancel polling = []
cancel exited = []
cancel crashed = []
cancel (consuming m i) = abandoned m ∷ []
cancel (falling_back m) = abandoned m ∷ []
cancel (backing_off m s) = abandoned m ∷ []
cancel (requeueing m) = abandoned m ∷ []
cancel (capturing m) = was_not_captured m ∷ []

unfoldable pub cancel_all : List Phase → Effects
cancel_all [] = []
cancel_all (p ∷ ps) = cancel p ++ cancel_all ps

-- One call of `stop` after that wait, whether it ended or timed out: the workers are cancelled,
-- gathered and cleared. The gather is one step with the other two, since a cancelled worker has no
-- more awaits; a `start` in the turn of the loop between them is left out.
unfoldable pub end_stop : MessageQueue → Step?
unfolding cancel_all
end_stop q =
    if q.stopping == 0
    then none
    else some (record q { workers = []; stopping = q.stopping - 1 }, cancel_all q.workers)

-- What ends a worker's await.
pub data Move : Type 0 where
  begins get_times_out takes wakes puts : Move
  answers : Outcome → Move

unfoldable pub move : Phase → Move → MessageQueue → ℕ → Step?
move created begins q w = some (at_phase q w (loop_test q.running), [])
move polling get_times_out q w = some (at_phase q w (loop_test q.running), [])
move polling takes q w = take_head q.items q w
move (consuming m i) (answers o) q w = some (on_consumer q w m i o)
move (falling_back m) (answers o) q w = some (on_fallback q w m o)
move (backing_off m s) wakes q w = wake_up q w m
move (requeueing m) puts q w = requeue q w m
move (capturing m) (answers o) q w = on_captured q w m o
move p mv q w = none

pub data Event : Type 0 where
  -- a producer's `enqueue` gets its slot, or gives up after ten seconds
  enqueues gives_up : QueuedMessage → Event
  starts stops stop_ends : Event
  worker : ℕ → Move → Event

abbrev pub move_at : Option Phase → Move → MessageQueue → ℕ → Step?
move_at none mv q w = none
move_at (some p) mv q w = move p mv q w

unfoldable pub step : Event → MessageQueue → Step?
step (enqueues m) q = enqueue m q
step (gives_up m) q = some (q, refused m ∷ [])
step starts q = some ((start q).0, [])
step stops q = some (begin_stop q, [])
step stop_ends q = end_stop q
step (worker w mv) q = move_at (get_elem? q.workers w) mv q w

-- An event that cannot happen now is passed over.
abbrev pub advance : Step? → MessageQueue → MessageQueue × Effects
advance none q = (q, [])
advance (some s) q = s

unfoldable pub run : List Event → MessageQueue → MessageQueue × Effects
run [] q = (q, [])
run (e ∷ es) q =
    let (q', fx) = advance (step e q) q in let (q'', fx') = run es q' in (q'', fx ++ fx')
