-- ===== src/Queue/Tasks.antt =====
-- The count of unfinished tasks, by which `join` knows that the queue is drained: what each step of a
-- worker does to it.
use indian_sim_sms_gateway.Prelude.{
  ℕ, ◌+◌, ◌≤◌, ◌≡◌, refl, true, false, none, some, List, [], ◌∷◌, arith, length, set, get_elem?,
  total, total-set, length-append, ap, ⊤,
}
use indian_sim_sms_gateway.Message.{QueuedMessage, queued, processing, dead_lettered}
use indian_sim_sms_gateway.Queue.State.{
  Phase, created, polling, exited, crashed, consuming, falling_back, backing_off, requeueing,
  capturing, MessageQueue,
}
use indian_sim_sms_gateway.Queue.Step.{
  Outcome, returned, raised, Effect, was_not_captured, Effects, Step?, loop_test, backoff, finish,
  deliver, dead_letter, handle_failure, try_fallback, try_consumer, on_consumer, on_fallback,
  put_item, take_head, requeue, wake_up, on_captured,
}

-- A message in a worker's hands, on its way to the Dead Letter Office included.
abbrev pub busy : Phase → ℕ
busy created = 0
busy polling = 0
busy exited = 0
busy crashed = 0
busy (consuming m i) = 1
busy (falling_back m) = 1
busy (backing_off m s) = 1
busy (requeueing m) = 1
busy (capturing m) = 1

abbrev pub dead : Phase → ℕ
dead crashed = 1
dead _ = 0

abbrev pub in_hand : MessageQueue → ℕ
in_hand q = total busy q.workers

abbrev pub crashes : MessageQueue → ℕ
crashes q = total dead q.workers

abbrev pub not_captured_of : Effect → ℕ
not_captured_of (was_not_captured m) = 1
not_captured_of e = 0

abbrev pub not_captured : Effects → ℕ
not_captured = total not_captured_of

-- Each item and each message in a worker's hands is an unfinished task.
abbrev pub IsAccounted : MessageQueue → Type 0
IsAccounted q = length q.items + in_hand q ≤ q.unfinished

-- The worker w, in phase p, has a message in its hands that is still to be accounted for.
pub record Holds (q : MessageQueue) (w : ℕ) (p : Phase) : Type 0 where
  pub here : get_elem? q.workers w ≡ some p
  pub alive : dead p ≡ 0
  pub counted : length q.items + in_hand q + 1 ≤ q.unfinished + busy p

abbrev pub Ends : MessageQueue → MessageQueue × Effects → Type 0
Ends q (q', fx) = IsAccounted q' × (crashes q' ≤ crashes q + not_captured fx)

pub busy-set :
    (q : MessageQueue) (w : ℕ) (p new : Phase)
    → get_elem? q.workers w ≡ some p
    → (total busy (set q.workers w new) + busy p ≡ in_hand q + busy new)
      × (total dead (set q.workers w new) + dead p ≡ crashes q + dead new)
busy-set q w p new here =
    (total-set busy q.workers w p new here, total-set dead q.workers w p new here)

finish-Ends : (q : MessageQueue) (w : ℕ) (p : Phase) → Holds q w p → Ends q (finish q w, [])
unfolding finish
finish-Ends q w p h =
    ground (arith, busy-set q w p crashed h.here, busy-set q w p (loop_test q.running) h.here)

deliver-Ends :
    (q : MessageQueue) (w : ℕ) (p : Phase) (m : QueuedMessage)
    → Holds q w p
    → Ends q (deliver q w m)
unfolding deliver
deliver-Ends q w p m h =
    let q' = record q { total_delivered = q.total_delivered + 1 } in
    let e = finish-Ends q' w p (record { here = h.here; alive = h.alive; counted = h.counted }) in
    (e.0, omega (arith, e.1))

dead_letter-Ends :
    (q : MessageQueue) (w : ℕ) (p : Phase) (m : QueuedMessage)
    → Holds q w p
    → Ends q (dead_letter q w m)
unfolding dead_letter
dead_letter-Ends q w p m h =
    let q' = record q {
      total_dead_lettered = q.total_dead_lettered + 1;
      total_failed = q.total_failed + 1;
    } in
    ground (
      arith,
      finish-Ends q' w p (record { here = h.here; alive = h.alive; counted = h.counted }),
      busy-set q w p (capturing (record m { status = dead_lettered })) h.here,
    )

handle_failure-Ends :
    (q : MessageQueue) (w : ℕ) (p : Phase) (m : QueuedMessage)
    → Holds q w p
    → Ends q (handle_failure q w m)
unfolding handle_failure
handle_failure-Ends q w p m h =
    let m' = record m { retry_count = m.retry_count + 1 } in
    ground (arith, dead_letter-Ends q w p m' h, busy-set q w p (backing_off m' (backoff m')) h.here)

try_fallback-Ends :
    (q : MessageQueue) (w : ℕ) (p : Phase) (m : QueuedMessage)
    → Holds q w p
    → Ends q (try_fallback q w m)
unfolding try_fallback
try_fallback-Ends q w p m h =
    ground (arith, handle_failure-Ends q w p m h, busy-set q w p (falling_back m) h.here)

try_consumer-Ends :
    (q : MessageQueue) (w : ℕ) (p : Phase) (m : QueuedMessage) (i : ℕ)
    → Holds q w p
    → Ends q (try_consumer q w m i)
unfolding try_consumer
try_consumer-Ends q w p m i h =
    ground (arith, try_fallback-Ends q w p m h, busy-set q w p (consuming m i) h.here)

pub on_consumer-Ends :
    (q : MessageQueue) (w : ℕ) (p : Phase) (m : QueuedMessage) (i : ℕ) (o : Outcome)
    → Holds q w p
    → Ends q (on_consumer q w m i o)
unfolding on_consumer
on_consumer-Ends q w p m i (returned true) h = deliver-Ends q w p m h
on_consumer-Ends q w p m i (returned false) h = try_consumer-Ends q w p m (i + 1) h
on_consumer-Ends q w p m i (raised e) h =
    try_consumer-Ends q w p (record m { last_error = e }) (i + 1) h

pub on_fallback-Ends :
    (q : MessageQueue) (w : ℕ) (p : Phase) (m : QueuedMessage) (o : Outcome)
    → Holds q w p
    → Ends q (on_fallback q w m o)
unfolding on_fallback
on_fallback-Ends q w p m (returned true) h = deliver-Ends q w p m h
on_fallback-Ends q w p m (returned false) h = handle_failure-Ends q w p m h
on_fallback-Ends q w p m (raised e) h = handle_failure-Ends q w p (record m { last_error = e }) h

-- What a whole step does to an accounted queue, if it is possible.
abbrev pub Accounts : MessageQueue → Step? → Type 0
Accounts q none = ⊤
Accounts q (some s) = Ends q s

pub take_head-Accounts :
    (items : List QueuedMessage) (q : MessageQueue) (w : ℕ)
    → q.items ≡ items
    → get_elem? q.workers w ≡ some polling
    → IsAccounted q
    → Accounts q (take_head items q w)
unfolding take_head
take_head-Accounts [] q w e here a = tt
take_head-Accounts (m ∷ rest) q w e here a =
    let q' = record q { items = rest } in
    let h : Holds q' w polling = record {
      here = here;
      alive = refl;
      counted = omega (arith, ap length e);
    } in
    let moved = try_consumer-Ends q' w polling (record m { status = processing }) 0 h in
    (moved.0, omega (arith, moved.1))

pub requeue-Accounts :
    (q : MessageQueue) (w : ℕ) (p : Phase) (m : QueuedMessage)
    → Holds q w p
    → Accounts q (requeue q w m)
unfolding requeue
requeue-Accounts q w p m h =
    let q' = put_item m q in
    let h' : Holds q' w p = record {
      here = h.here;
      alive = h.alive;
      counted = omega (arith, h.counted, length-append q.items (m ∷ []));
    } in
    ground (arith, finish-Ends q' w p h')

pub wake_up-Accounts :
    (q : MessageQueue) (w : ℕ) (p : Phase) (m : QueuedMessage)
    → Holds q w p
    → Accounts q (wake_up q w m)
unfolding wake_up
wake_up-Accounts q w p m h =
    let m' = record m { status = queued } in
    ground (arith, requeue-Accounts q w p m' h, busy-set q w p (requeueing m') h.here)

pub on_captured-Accounts :
    (q : MessageQueue) (w : ℕ) (p : Phase) (m : QueuedMessage) (o : Outcome)
    → Holds q w p
    → Accounts q (on_captured q w m o)
unfolding on_captured
on_captured-Accounts q w p m (returned b) h =
    let e = finish-Ends q w p h in (e.0, omega (arith, e.1))
on_captured-Accounts q w p m (raised e) h = ground (arith, busy-set q w p crashed h.here, h)
