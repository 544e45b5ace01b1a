-- ===== src/Queue/Retries.antt =====
-- How often a message is tried before it is dead-lettered: each step of a worker.
use indian_sim_sms_gateway.Prelude.{
  ℕ, ◌+◌, ◌≡◌, ◌⊎◌, inl, inr, max, true, false, none, some, List, [], ◌∷◌, arith, get_elem?, All,
  All-append, All-set, Bool-cases, ⊤, is_some, Bool,
}
use indian_sim_sms_gateway.Prelude.Int.{pos, pos_part, ◌<ℤ◌}
use indian_sim_sms_gateway.Message.{QueuedMessage, queued, processing, dead_lettered}
use indian_sim_sms_gateway.Queue.State.{
  Phase, crashed, consuming, falling_back, backing_off, requeueing, capturing, MessageQueue, full,
}
use indian_sim_sms_gateway.Queue.Step.{
  Outcome, returned, raised, Effect, was_dead_lettered, Effects, Step?, at_phase, loop_test,
  backoff, finish, deliver, dead_letter, handle_failure, try_fallback, try_consumer, on_consumer,
  on_fallback, put_item, take_head, requeue, wake_up,
}

-- A message that may be tried: it is new, or has retries left.
abbrev pub IsLive : QueuedMessage → Type 0
IsLive m = (m.retry_count ≡ 0) ⊎ (pos m.retry_count <ℤ m.max_retries)

abbrev pub IsLivePhase : Phase → Type 0
IsLivePhase (consuming m i) = IsLive m
IsLivePhase (falling_back m) = IsLive m
IsLivePhase (backing_off m s) = IsLive m
IsLivePhase (requeueing m) = IsLive m
IsLivePhase _ = ⊤

-- A dead-lettered message has failed as often as it may, and at least once.
abbrev pub IsExhausted : Effect → Type 0
IsExhausted (was_dead_lettered m) =
    (m.status ≡ dead_lettered) × (m.retry_count ≡ max 1 (pos_part m.max_retries))
IsExhausted _ = ⊤

abbrev pub AllLive : MessageQueue → Type 0
AllLive q = All IsLive q.items × All IsLivePhase q.workers

abbrev pub Good : MessageQueue × Effects → Type 0
Good (q', fx) = AllLive q' × All IsExhausted fx

pub at_phase-AllLive :
    (q : MessageQueue) (w : ℕ) (p : Phase) → AllLive q → IsLivePhase p → AllLive (at_phase q w p)
at_phase-AllLive q w p h l = (h.0, All-set IsLivePhase q.workers w p h.1 l)

pub loop_test-IsLivePhase : (b : Bool) → IsLivePhase (loop_test b)
loop_test-IsLivePhase true = tt
loop_test-IsLivePhase false = tt

pub finish-AllLive : (q : MessageQueue) (w : ℕ) → AllLive q → AllLive (finish q w)
unfolding finish
finish-AllLive q w h = ground (
  arith,
  at_phase-AllLive q w crashed h tt,
  at_phase-AllLive q w (loop_test q.running) h (loop_test-IsLivePhase q.running),
)

deliver-Good : (q : MessageQueue) (w : ℕ) (m : QueuedMessage) → AllLive q → Good (deliver q w m)
unfolding deliver
deliver-Good q w m h =
    (finish-AllLive (record q { total_delivered = q.total_delivered + 1 }) w h, (tt, tt))

handle_failure-Good :
    (q : MessageQueue) (w : ℕ) (m : QueuedMessage)
    → AllLive q
    → IsLive m
    → Good (handle_failure q w m)
unfolding handle_failure dead_letter
handle_failure-Good q w m h l =
    let m' = record m { retry_count = m.retry_count + 1 } in
    let q' = record q {
      total_dead_lettered = q.total_dead_lettered + 1;
      total_failed = q.total_failed + 1;
    } in
    ground (
      arith,
      at_phase-AllLive q w (backing_off m' (backoff m')) h,
      at_phase-AllLive q' w (capturing (record m' { status = dead_lettered })) h tt,
      finish-AllLive q' w h,
    )

try_fallback-Good :
    (q : MessageQueue) (w : ℕ) (m : QueuedMessage)
    → AllLive q
    → IsLive m
    → Good (try_fallback q w m)
unfolding try_fallback
try_fallback-Good q w m h l = elim (Bool-cases (is_some q.fallback)) [
  | inl e ↦ rw e (at_phase-AllLive q w (falling_back m) h l, tt)
  | inr e ↦ rw e (handle_failure-Good q w m h l)
]

try_consumer-Good :
    (q : MessageQueue) (w : ℕ) (m : QueuedMessage) (i : ℕ)
    → AllLive q
    → IsLive m
    → Good (try_consumer q w m i)
unfolding try_consumer
try_consumer-Good q w m i h l = elim (Bool-cases (is_some (get_elem? q.consumers i))) [
  | inl e ↦ rw e (at_phase-AllLive q w (consuming m i) h l, tt)
  | inr e ↦ rw e (try_fallback-Good q w m h l)
]

pub on_consumer-Good :
    (q : MessageQueue) (w : ℕ) (m : QueuedMessage) (i : ℕ) (o : Outcome)
    → AllLive q
    → IsLive m
    → Good (on_consumer q w m i o)
unfolding on_consumer
on_consumer-Good q w m i (returned true) h l = deliver-Good q w m h
on_consumer-Good q w m i (returned false) h l = try_consumer-Good q w m (i + 1) h l
on_consumer-Good q w m i (raised e) h l =
    try_consumer-Good q w (record m { last_error = e }) (i + 1) h l

pub on_fallback-Good :
    (q : MessageQueue) (w : ℕ) (m : QueuedMessage) (o : Outcome)
    → AllLive q
    → IsLive m
    → Good (on_fallback q w m o)
unfolding on_fallback
on_fallback-Good q w m (returned true) h l = deliver-Good q w m h
on_fallback-Good q w m (returned false) h l = handle_failure-Good q w m h l
on_fallback-Good q w m (raised e) h l = handle_failure-Good q w (record m { last_error = e }) h l

abbrev pub Good? : Step? → Type 0
Good? none = ⊤
Good? (some s) = Good s

pub take_head-Good :
    (items : List QueuedMessage) (q : MessageQueue) (w : ℕ)
    → All IsLive items
    → AllLive q
    → Good? (take_head items q w)
unfolding take_head
take_head-Good [] q w l h = tt
take_head-Good (m ∷ rest) q w l h =
    let q' = record q { items = rest } in
    let good = try_consumer-Good q' w (record m { status = processing }) 0 (l.1, h.1) l.0 in
    (good.0, (tt, good.1))

pub put_item-AllLive :
    (q : MessageQueue) (m : QueuedMessage) → AllLive q → IsLive m → AllLive (put_item m q)
put_item-AllLive q m h l = (All-append IsLive q.items (m ∷ []) h.0 (l, tt), h.1)

pub requeue-Good :
    (q : MessageQueue) (w : ℕ) (m : QueuedMessage) → AllLive q → IsLive m → Good? (requeue q w m)
unfolding requeue
requeue-Good q w m h l = elim (Bool-cases (full q)) [
  | inl e ↦ rw e tt
  | inr e ↦ rw e (finish-AllLive (put_item m q) w (put_item-AllLive q m h l), (tt, tt))
]

pub wake_up-Good :
    (q : MessageQueue) (w : ℕ) (m : QueuedMessage) → AllLive q → IsLive m → Good? (wake_up q w m)
unfolding wake_up
wake_up-Good q w m h l =
    let m' = record m { status = queued } in
    elim (Bool-cases (full q)) [
      | inl e ↦ rw e (at_phase-AllLive q w (requeueing m') h l, tt)
      | inr e ↦ rw e (requeue-Good q w m' h l)
    ]
