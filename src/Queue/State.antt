-- ===== src/Queue/State.antt =====
-- backend/message_queue.py: the fields of MessageQueue, its constructor and registrations. The
-- asyncio.Queue inside is the bounded FIFO that its documentation describes: its items, its limit
-- (none, if it is not positive), and the count of tasks that `join` waits for.
use indian_sim_sms_gateway.Prelude.{
  ℕ, Bool, true, false, Option, none, some, List, [], ◌∷◌, ◌++◌, length, select, if◌then◌else◌,
}
use indian_sim_sms_gateway.Prelude.Int.{ℤ, pos, leb_ℤ}
use indian_sim_sms_gateway.Prelude.Text.{Text}
use indian_sim_sms_gateway.Message.{QueuedMessage}

-- A registered callback, by its `__qualname__`; what it answers is an input of the steps.
abbrev pub Callback : Type 0
Callback = Text

-- Where a worker task stands: each phase but the last two is an await. A worker whose task has been
-- created and has not run yet is `created`; `exited` has left the loop, and `crashed` ended by an
-- exception.
pub data Phase : Type 0 where
  created polling exited crashed : Phase
  -- awaits the consumer at this place of the list
  consuming : QueuedMessage → ℕ → Phase
  falling_back : QueuedMessage → Phase
  -- sleeps this many seconds
  backing_off : QueuedMessage → ℕ → Phase
  -- awaits a free slot for the message that it puts back
  requeueing : QueuedMessage → Phase
  -- awaits the Dead Letter Office
  capturing : QueuedMessage → Phase

pub record MessageQueue : Type 0 where
  pub items : List QueuedMessage  -- of self._queue
  pub max_size : ℤ  -- of self._queue
  pub unfinished : ℕ  -- of self._queue
  pub concurrency : ℤ
  pub consumers : List Callback
  pub fallback : Option Callback
  pub dlo_callback : Option Callback
  pub workers : List Phase
  pub running : Bool
  pub total_enqueued : ℕ
  pub total_delivered : ℕ
  pub total_failed : ℕ
  pub total_dead_lettered : ℕ
  -- the calls of `stop` that still wait
  pub stopping : ℕ

unfoldable pub init : ℤ → ℤ → MessageQueue
init max_size concurrency = record {
  items = [];
  max_size = max_size;
  unfinished = 0;
  concurrency = concurrency;
  consumers = [];
  fallback = none;
  dlo_callback = none;
  workers = [];
  running = false;
  total_enqueued = 0;
  total_delivered = 0;
  total_failed = 0;
  total_dead_lettered = 0;
  stopping = 0;
}

unfoldable pub register_consumer : Callback → MessageQueue → MessageQueue
register_consumer callback q = record q { consumers = q.consumers ++ (callback ∷ []) }

unfoldable pub register_fallback : Callback → MessageQueue → MessageQueue
register_fallback callback q = record q { fallback = some callback }

unfoldable pub register_dlo : Callback → MessageQueue → MessageQueue
register_dlo callback q = record q { dlo_callback = some callback }

-- `self._queue.full()`
abbrev pub full : MessageQueue → Bool
full q = if leb_ℤ q.max_size (pos 0) then false else leb_ℤ q.max_size (pos (length q.items))

-- `self._queue.qsize()`
abbrev pub depth : MessageQueue → ℕ
depth q = length q.items

-- `not w.done()`
abbrev pub is_active : Phase → Bool
is_active exited = false
is_active crashed = false
is_active p = true

pub record Metrics : Type 0 where
  pub queue_depth : ℕ
  pub max_size : ℤ
  pub total_enqueued : ℕ
  pub total_delivered : ℕ
  pub total_failed : ℕ
  pub total_dead_lettered : ℕ
  pub active_workers : ℕ
  pub running : Bool

unfoldable pub metrics : MessageQueue → Metrics
metrics q = record {
  queue_depth = length q.items;
  max_size = q.max_size;
  total_enqueued = q.total_enqueued;
  total_delivered = q.total_delivered;
  total_failed = q.total_failed;
  total_dead_lettered = q.total_dead_lettered;
  active_workers = length (select is_active q.workers);
  running = q.running;
}
