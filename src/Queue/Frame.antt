-- ===== src/Queue/Frame.antt =====
-- What a worker's dispatch of a message leaves alone.
use indian_sim_sms_gateway.Prelude.{ℕ, ◌+◌, ◌≡◌, true, false, List, [], ◌∷◌, arith}
use indian_sim_sms_gateway.Message.{QueuedMessage}
use indian_sim_sms_gateway.Queue.State.{MessageQueue}
use indian_sim_sms_gateway.Queue.Step.{
  Outcome, returned, raised, placed, taken, Effects, finish, deliver, dead_letter, handle_failure,
  try_fallback, try_consumer, on_consumer, on_fallback,
}

-- The items that came into the queue, and those that left it.
abbrev pub placed_in : Effects → List QueuedMessage
placed_in [] = []
placed_in (placed m ∷ fx) = m ∷ placed_in fx
placed_in (_ ∷ fx) = placed_in fx

abbrev pub taken_out : Effects → List QueuedMessage
taken_out [] = []
taken_out (taken m ∷ fx) = m ∷ taken_out fx
taken_out (_ ∷ fx) = taken_out fx

pub record Keeps (q q' : MessageQueue) : Type 0 where
  pub items : q'.items ≡ q.items
  pub max_size : q'.max_size ≡ q.max_size
  pub consumers : q'.consumers ≡ q.consumers
  pub running : q'.running ≡ q.running
  pub stopping : q'.stopping ≡ q.stopping
  pub total_enqueued : q'.total_enqueued ≡ q.total_enqueued

abbrev pub Dispatches : MessageQueue → MessageQueue × Effects → Type 0
Dispatches q (q', fx) = Keeps q q' × (placed_in fx ≡ []) × (taken_out fx ≡ [])

pub finish-Keeps : (q : MessageQueue) (w : ℕ) → Keeps q (finish q w)
unfolding finish
finish-Keeps q w = ground arith

pub deliver-Dispatches :
    (q : MessageQueue) (w : ℕ) (m : QueuedMessage) → Dispatches q (deliver q w m)
unfolding deliver finish
deliver-Dispatches q w m = ground arith

pub handle_failure-Dispatches :
    (q : MessageQueue) (w : ℕ) (m : QueuedMessage) → Dispatches q (handle_failure q w m)
unfolding handle_failure dead_letter finish
handle_failure-Dispatches q w m = ground arith

pub try_fallback-Dispatches :
    (q : MessageQueue) (w : ℕ) (m : QueuedMessage) → Dispatches q (try_fallback q w m)
unfolding try_fallback
try_fallback-Dispatches q w m = ground (arith, handle_failure-Dispatches q w m)

pub try_consumer-Dispatches :
    (q : MessageQueue) (w : ℕ) (m : QueuedMessage) (i : ℕ) → Dispatches q (try_consumer q w m i)
unfolding try_consumer
try_consumer-Dispatches q w m i = ground (arith, try_fallback-Dispatches q w m)

pub on_consumer-Dispatches :
    (q : MessageQueue) (w : ℕ) (m : QueuedMessage) (i : ℕ) (o : Outcome)
    → Dispatches q (on_consumer q w m i o)
unfolding on_consumer
on_consumer-Dispatches q w m i (returned true) = deliver-Dispatches q w m
on_consumer-Dispatches q w m i (returned false) = try_consumer-Dispatches q w m (i + 1)
on_consumer-Dispatches q w m i (raised e) =
    try_consumer-Dispatches q w (record m { last_error = e }) (i + 1)

pub on_fallback-Dispatches :
    (q : MessageQueue) (w : ℕ) (m : QueuedMessage) (o : Outcome)
    → Dispatches q (on_fallback q w m o)
unfolding on_fallback
on_fallback-Dispatches q w m (returned true) = deliver-Dispatches q w m
on_fallback-Dispatches q w m (returned false) = handle_failure-Dispatches q w m
on_fallback-Dispatches q w m (raised e) =
    handle_failure-Dispatches q w (record m { last_error = e })
