-- ===== src/Queue/Step.antt =====
-- backend/message_queue.py: the methods of MessageQueue, and its worker as the steps that it makes
-- between two awaits. Any worker may make the next step, so a list of events is an interleaving.
-- A step that its task cannot make, as a put into a full queue, is `none`.
use indian_sim_sms_gateway.Prelude.{
  ℕ, ◌+◌, ◌-◌, ◌^◌, min, Bool, true, false, Option, none, some, List, [], ◌∷◌, ◌++◌, set, get_elem?,
  is_some, ◌==◌, if◌then◌else◌,
}
use indian_sim_sms_gateway.Prelude.Text.{Text}
use indian_sim_sms_gateway.Message.{
  QueuedMessage, queued, processing, delivered, dead_lettered, is_retriable,
}
use indian_sim_sms_gateway.Queue.State.{
  Phase, polling, exited, crashed, consuming, falling_back, backing_off, requeueing, capturing,
  MessageQueue, full,
}

-- What a callback answers.
pub data Outcome : Type 0 where
  returned : Bool → Outcome
  raised : Text → Outcome

-- What happened in a step, for the properties to speak of; the code logs most of it.
pub data Effect : Type 0 where
  -- `enqueue` returned True, or False
  accepted refused : QueuedMessage → Effect
  -- an item came into self._queue, or left it
  placed taken : QueuedMessage → Effect
  -- the counters of the same names went up
  was_delivered was_dead_lettered : QueuedMessage → Effect
  -- the Dead Letter Office's callback returned, or it raised or was cancelled
  was_captured was_not_captured : QueuedMessage → Effect
  -- the message was in the hands of a worker that was cancelled
  abandoned : QueuedMessage → Effect

abbrev pub Effects : Type 0
Effects = List Effect

-- A step that may be impossible now.
abbrev pub Step? : Type 0
Step? = Option (MessageQueue × Effects)

-- The worker moves on to its next await.
abbrev pub at_phase : MessageQueue → ℕ → Phase → MessageQueue
at_phase q w p = record q { workers = set q.workers w p }

-- `while self._running:`
abbrev pub loop_test : Bool → Phase
loop_test running = if running then polling else exited

-- `self._queue.task_done()`, which raises if there is nothing left to finish, and the next round.
unfoldable pub finish : MessageQueue → ℕ → MessageQueue
finish q w =
    if q.unfinished == 0
    then at_phase q w crashed
    else at_phase (record q { unfinished = q.unfinished - 1 }) w (loop_test q.running)

unfoldable pub deliver : MessageQueue → ℕ → QueuedMessage → MessageQueue × Effects
deliver q w m = (
  finish (record q { total_delivered = q.total_delivered + 1 }) w,
  was_delivered (record m { status = delivered }) ∷ [],
)

-- The last else branch: the retries are exhausted.
unfoldable pub dead_letter : MessageQueue → ℕ → QueuedMessage → MessageQueue × Effects
dead_letter q w m =
    let d = record m { status = dead_lettered } in
    let q' = record q {
      total_dead_lettered = q.total_dead_lettered + 1;
      total_failed = q.total_failed + 1;
    } in
    (
      if is_some q.dlo_callback then at_phase q' w (capturing d) else finish q' w,
      was_dead_lettered d ∷ [],
    )

-- `min(2 ** message.retry_count, 60)`
abbrev pub backoff : QueuedMessage → ℕ
backoff m = min (2 ^ m.retry_count) 60

-- `if not delivered:`
unfoldable pub handle_failure : MessageQueue → ℕ → QueuedMessage → MessageQueue × Effects
handle_failure q w m =
    let m' = record m { retry_count = m.retry_count + 1 } in
    if is_retriable m' then (at_phase q w (backing_off m' (backoff m')), []) else dead_letter q w m'

-- `if not delivered and self._fallback:`
unfoldable pub try_fallback : MessageQueue → ℕ → QueuedMessage → MessageQueue × Effects
try_fallback q w m =
    if is_some q.fallback then (at_phase q w (falling_back m), []) else handle_failure q w m

-- `for consumer in self._consumers:`, at the place i of the list.
unfoldable pub try_consumer : MessageQueue → ℕ → QueuedMessage → ℕ → MessageQueue × Effects
try_consumer q w m i =
    if is_some (get_elem? q.consumers i)
    then (at_phase q w (consuming m i), [])
    else try_fallback q w m

-- A consumer has answered.
unfoldable pub on_consumer : MessageQueue → ℕ → QueuedMessage → ℕ → Outcome → MessageQueue × Effects
on_consumer q w m i (returned true) = deliver q w m
on_consumer q w m i (returned false) = try_consumer q w m (i + 1)
on_consumer q w m i (raised e) = try_consumer q w (record m { last_error = e }) (i + 1)

-- The fallback has answered.
unfoldable pub on_fallback : MessageQueue → ℕ → QueuedMessage → Outcome → MessageQueue × Effects
on_fallback q w m (returned true) = deliver q w m
on_fallback q w m (returned false) = handle_failure q w m
on_fallback q w m (raised e) = handle_failure q w (record m { last_error = e })

-- `self._queue.put(message)` at a free slot.
abbrev pub put_item : QueuedMessage → MessageQueue → MessageQueue
put_item m q = record q { items = q.items ++ (m ∷ []); unfinished = q.unfinished + 1 }

-- `enqueue`. A full queue keeps the caller waiting, which is `none`; its time-out is an event.
unfoldable pub enqueue : QueuedMessage → MessageQueue → Step?
enqueue m q =
    if full q
    then none
    else some (
      record (put_item m q) { total_enqueued = q.total_enqueued + 1 },
      placed m ∷ accepted m ∷ [],
    )

-- `self._queue.get()` hands over the first item, and the dispatch begins.
unfoldable pub take_head : List QueuedMessage → MessageQueue → ℕ → Step?
take_head [] q w = none
take_head (m ∷ rest) q w =
    let (q', es) =
      try_consumer (record q { items = rest }) w (record m { status = processing }) 0 in
    some (q', taken m ∷ es)

-- `await self._queue.put(message)` of a retry, then `task_done`.
unfoldable pub requeue : MessageQueue → ℕ → QueuedMessage → Step?
requeue q w m = if full q then none else some (finish (put_item m q) w, placed m ∷ [])

-- The sleep is over: the put goes through at once, or waits.
unfoldable pub wake_up : MessageQueue → ℕ → QueuedMessage → Step?
wake_up q w m =
    let m' = record m { status = queued } in
    if full q then some (at_phase q w (requeueing m'), []) else requeue q w m'

-- The Dead Letter Office has answered; an exception ends the task before `task_done`.
unfoldable pub on_captured : MessageQueue → ℕ → QueuedMessage → Outcome → Step?
on_captured q w m (returned _) = some (finish q w, was_captured m ∷ [])
on_captured q w m (raised e) = some (at_phase q w crashed, was_not_captured m ∷ [])
