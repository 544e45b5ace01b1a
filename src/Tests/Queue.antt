-- ===== src/Tests/Queue.antt =====
-- backend/message_queue.py: runs of small queues, and the theorems at them.
use indian_sim_sms_gateway.Prelude.{
  ℕ, ◌+◌, ◌≤◌, ◌≡◌, refl, inl, inr, true, false, List, [], ◌∷◌, ◌++◌, arith, length, if◌then◌else◌,
  All,
}
use indian_sim_sms_gateway.Prelude.Int.{pos}
use indian_sim_sms_gateway.Prelude.Text.{Text, str, text_eq}
use indian_sim_sms_gateway.Message.{QueuedMessage, new_message}
use indian_sim_sms_gateway.Queue.State.{
  MessageQueue, crashed, init, register_consumer, register_dlo,
}
use indian_sim_sms_gateway.Queue.Step.{
  returned, raised, finish, deliver, dead_letter, handle_failure, try_fallback, try_consumer,
  on_consumer, enqueue, take_head, requeue, wake_up, on_captured,
}
use indian_sim_sms_gateway.Queue.Run.{
  Event, enqueues, gives_up, starts, stops, stop_ends, worker, begins, get_times_out, takes, wakes,
  puts, answers, start, begin_stop, cancel_all, end_stop, move, step, run,
}
use indian_sim_sms_gateway.Queue.Flow.{inflow, outflow, load}
use indian_sim_sms_gateway.Queue.Conservation.{run-conserves}
use indian_sim_sms_gateway.Queue.Frame.{placed_in, taken_out}
use indian_sim_sms_gateway.Queue.Order.{IsWithin, run_fifo, run-IsWithin}
use indian_sim_sms_gateway.Queue.Tasks.{IsAccounted, crashes, not_captured}
use indian_sim_sms_gateway.Queue.Drain.{run-IsAccounted}
use indian_sim_sms_gateway.Queue.Retries.{AllLive, IsExhausted}
use indian_sim_sms_gateway.Queue.Exhaustion.{run-IsExhausted}
use indian_sim_sms_gateway.Queue.Stuck.{IsStuck, run-IsStuck}
use indian_sim_sms_gateway.Queue.Shutdown.{stop_keeps_items}

abbrev sms : Text → QueuedMessage
sms id = new_message id (str "+91") (str "otp") (str "now") (str "n1") 7

-- A message whose last retry is the first.
abbrev last_try : Text → QueuedMessage
last_try id = record (sms id) { max_retries = pos 1 }

-- One worker, one consumer, the Dead Letter Office, and room for one item.
abbrev fresh : MessageQueue
unfolding init register_consumer register_dlo
fresh = register_dlo (str "capture") (register_consumer (str "send") (init (pos 1) (pos 1)))

-- A message is refused, put back and delivered.
abbrev delivery : List Event
delivery =
    enqueues (sms (str "a"))
    ∷ starts
    ∷ worker 0 begins
    ∷ worker 0 takes
    ∷ worker 0 (answers (returned false))
    ∷ worker 0 wakes
    ∷ worker 0 takes
    ∷ worker 0 (answers (returned true))
    ∷ []

-- A message is dead-lettered, and the office raises.
abbrev disaster : List Event
disaster =
    starts
    ∷ worker 0 begins
    ∷ enqueues (last_try (str "b"))
    ∷ worker 0 takes
    ∷ worker 0 (answers (raised (str "down")))
    ∷ worker 0 (answers (raised (str "redis")))
    ∷ []

-- While the worker sleeps before a retry, a producer takes the only slot.
abbrev jam : List Event
jam =
    enqueues (sms (str "a"))
    ∷ starts
    ∷ worker 0 begins
    ∷ worker 0 takes
    ∷ worker 0 (answers (returned false))
    ∷ enqueues (sms (str "b"))
    ∷ worker 0 wakes
    ∷ []

abbrev stuck : MessageQueue
unfolding run step start begin_stop end_stop move enqueue take_head try_consumer try_fallback
    handle_failure on_consumer wake_up requeue
stuck = (run jam fresh).0

abbrev count_a : Text → ℕ
unfolding text_eq
count_a id = if text_eq id (str "a") then 1 else 0

delivery_delivers : (run delivery fresh).0.total_delivered ≡ 1
unfolding run step start begin_stop end_stop cancel_all move enqueue take_head try_consumer
    try_fallback handle_failure dead_letter on_consumer on_captured wake_up requeue finish deliver
    fresh
delivery_delivers = refl

disaster_crashes :
    ((run disaster fresh).0.workers ≡ crashed ∷ []) × ((run disaster fresh).0.unfinished ≡ 1)
unfolding run step start begin_stop end_stop cancel_all move enqueue take_head try_consumer
    try_fallback handle_failure dead_letter on_consumer on_captured wake_up requeue finish deliver
    fresh
disaster_crashes = (refl, refl)

run-conserves_example :
    let (q, fx) = run delivery fresh in inflow count_a fx + 0 ≡ load count_a q + outflow count_a fx
unfolding fresh
run-conserves_example = run-conserves count_a delivery fresh

run_fifo_example : let (q, fx) = run delivery fresh in taken_out fx ++ q.items ≡ placed_in fx
unfolding run fresh
run_fifo_example = run_fifo delivery fresh

run-IsWithin_example : IsWithin (run jam fresh).0
unfolding fresh
run-IsWithin_example = run-IsWithin jam fresh (inr (omega arith))

run-IsAccounted_example :
    let (q, fx) = run disaster fresh in IsAccounted q × (crashes q ≤ not_captured fx)
unfolding run step start begin_stop end_stop cancel_all move enqueue take_head try_consumer
    try_fallback handle_failure dead_letter on_consumer on_captured wake_up requeue finish deliver
    fresh
run-IsAccounted_example = run-IsAccounted disaster fresh (omega arith)

run-IsExhausted_example : AllLive (run disaster fresh).0 × All IsExhausted (run disaster fresh).1
unfolding fresh
run-IsExhausted_example =
    run-IsExhausted disaster fresh (tt, tt) (tt, (tt, (inl refl, (tt, (tt, (tt, tt))))))

stuck-IsStuck : IsStuck stuck
unfolding stuck fresh
stuck-IsStuck = record {
  is_full = refl;
  blocked = (tt, tt);
  is_running = refl;
  not_stopping = refl;
}

-- What may still be tried: an answer, another message, the worker, a start.
abbrev attempts : List Event
attempts =
    enqueues (sms (str "c"))
    ∷ worker 0 puts
    ∷ worker 0 takes
    ∷ starts
    ∷ gives_up (sms (str "c"))
    ∷ []

run-IsStuck_example : (run attempts stuck).0 ≡ stuck
run-IsStuck_example =
    run-IsStuck attempts stuck stuck-IsStuck
      ((λ e. cc), ((λ e. cc), ((λ e. cc), ((λ e. cc), ((λ e. cc), tt)))))

-- The worker polls, one item is in the queue, and `stop` begins.
abbrev stopped : MessageQueue
unfolding run step start begin_stop move enqueue
stopped = (run (enqueues (sms (str "a")) ∷ starts ∷ worker 0 begins ∷ stops ∷ []) fresh).0

stop_keeps_items_example :
    (gone kept new : List QueuedMessage) × (stopped.items ≡ gone ++ kept)
    × ((run (worker 0 get_times_out ∷ worker 0 takes ∷ stop_ends ∷ []) stopped).0.items
        ≡ kept ++ new)
    × (length gone ≤ 1)
unfolding stopped fresh
stop_keeps_items_example =
    stop_keeps_items (worker 0 get_times_out ∷ worker 0 takes ∷ stop_ends ∷ []) stopped refl
      ((λ e. cc), ((λ e. cc), ((λ e. cc), tt)))

-- With the time-out first, the item stays.
stopped_early :
    length (run (worker 0 get_times_out ∷ worker 0 takes ∷ stop_ends ∷ []) stopped).0.items ≡ 1
unfolding run step end_stop cancel_all move stopped fresh
stopped_early = refl
