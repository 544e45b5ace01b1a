-- ===== src/Queue/Waiting.antt =====
-- How many workers wait for the next item, at each step of a worker while `_running` is off.
use indian_sim_sms_gateway.Prelude.{
  ℕ, ◌+◌, ◌≡◌, true, false, some, arith, set, get_elem?, total, total-set,
}
use indian_sim_sms_gateway.Message.{QueuedMessage, dead_lettered}
use indian_sim_sms_gateway.Queue.State.{
  Phase, polling, crashed, consuming, falling_back, backing_off, capturing, MessageQueue,
}
use indian_sim_sms_gateway.Queue.Step.{
  Outcome, returned, raised, loop_test, backoff, finish, deliver, dead_letter, handle_failure,
  try_fallback, try_consumer, on_consumer, on_fallback,
}

-- A worker that waits for the queue's next item.
abbrev pub waits : Phase → ℕ
waits polling = 1
waits _ = 0

abbrev pub waiting : MessageQueue → ℕ
waiting q = total waits q.workers

module _ (q : MessageQueue) (w : ℕ) (p : Phase) (here : get_elem? q.workers w ≡ some p) where
  pub waits-set :
      (new : Phase) → total waits (set q.workers w new) + waits p ≡ waiting q + waits new
  waits-set new = total-set waits q.workers w p new here

module _ (w : ℕ) (p : Phase) where
  pub finish-waits :
      (q : MessageQueue)
      → get_elem? q.workers w ≡ some p
      → q.running ≡ false
      → waiting (finish q w) + waits p ≡ waiting q
  unfolding finish
  finish-waits q here off =
      ground (arith, waits-set q w p here crashed, waits-set q w p here (loop_test q.running))

  pub deliver-waits :
      (q : MessageQueue) (m : QueuedMessage)
      → get_elem? q.workers w ≡ some p
      → q.running ≡ false
      → waiting (deliver q w m).0 + waits p ≡ waiting q
  unfolding deliver
  deliver-waits q m here off =
      finish-waits (record q { total_delivered = q.total_delivered + 1 }) here off

  pub handle_failure-waits :
      (q : MessageQueue) (m : QueuedMessage)
      → get_elem? q.workers w ≡ some p
      → q.running ≡ false
      → waiting (handle_failure q w m).0 + waits p ≡ waiting q
  unfolding handle_failure dead_letter
  handle_failure-waits q m here off =
      let m' = record m { retry_count = m.retry_count + 1 } in
      let q' = record q {
        total_dead_lettered = q.total_dead_lettered + 1;
        total_failed = q.total_failed + 1;
      } in
      ground (
        arith,
        finish-waits q' here off,
        waits-set q w p here (backing_off m' (backoff m')),
        waits-set q w p here (capturing (record m' { status = dead_lettered })),
      )

  pub try_fallback-waits :
      (q : MessageQueue) (m : QueuedMessage)
      → get_elem? q.workers w ≡ some p
      → q.running ≡ false
      → waiting (try_fallback q w m).0 + waits p ≡ waiting q
  unfolding try_fallback
  try_fallback-waits q m here off =
      ground (arith, handle_failure-waits q m here off, waits-set q w p here (falling_back m))

  pub try_consumer-waits :
      (q : MessageQueue) (m : QueuedMessage) (i : ℕ)
      → get_elem? q.workers w ≡ some p
      → q.running ≡ false
      → waiting (try_consumer q w m i).0 + waits p ≡ waiting q
  unfolding try_consumer
  try_consumer-waits q m i here off =
      ground (arith, try_fallback-waits q m here off, waits-set q w p here (consuming m i))

  pub on_consumer-waits :
      (q : MessageQueue) (m : QueuedMessage) (i : ℕ) (o : Outcome)
      → get_elem? q.workers w ≡ some p
      → q.running ≡ false
      → waiting (on_consumer q w m i o).0 + waits p ≡ waiting q
  unfolding on_consumer
  on_consumer-waits q m i (returned true) here off = deliver-waits q m here off
  on_consumer-waits q m i (returned false) here off = try_consumer-waits q m (i + 1) here off
  on_consumer-waits q m i (raised e) here off =
      try_consumer-waits q (record m { last_error = e }) (i + 1) here off

  pub on_fallback-waits :
      (q : MessageQueue) (m : QueuedMessage) (o : Outcome)
      → get_elem? q.workers w ≡ some p
      → q.running ≡ false
      → waiting (on_fallback q w m o).0 + waits p ≡ waiting q
  unfolding on_fallback
  on_fallback-waits q m (returned true) here off = deliver-waits q m here off
  on_fallback-waits q m (returned false) here off = handle_failure-waits q m here off
  on_fallback-waits q m (raised e) here off =
      handle_failure-waits q (record m { last_error = e }) here off
