-- ===== src/Tests/Worker.antt =====
-- backend/message_queue.py: the dispatch loop, the counters and the encryption at small inputs.
use indian_sim_sms_gateway.Prelude.{
  ℕ, ◌+◌, ◌≡◌, refl, true, false, Option, none, some, List, [], ◌∷◌, arith, ◌==◌, if◌then◌else◌,
}
use indian_sim_sms_gateway.Prelude.Int.{pos}
use indian_sim_sms_gateway.Prelude.Text.{Text, str}
use indian_sim_sms_gateway.Message.{QueuedMessage, new_message}
use indian_sim_sms_gateway.Queue.State.{MessageQueue, consuming}
use indian_sim_sms_gateway.Queue.Step.{Outcome, returned, raised}
use indian_sim_sms_gateway.Queue.Run.{Event, enqueues, stops, stop_ends, worker, answers, run}
use indian_sim_sms_gateway.Queue.Balance.{IsBalanced, lost, run-IsBalanced}
use indian_sim_sms_gateway.Queue.Dispatch.{answers_from, dispatched, run-dispatched}
use indian_sim_sms_gateway.Queue.Rounds.{round_delivers}

abbrev sms : QueuedMessage
sms = new_message (str "a") (str "+91") (str "otp") (str "now") (str "n1") 7

-- Two consumers; the only worker awaits the first one.
abbrev busy_queue : MessageQueue
busy_queue = record {
  items = [];
  max_size = pos 5;
  unfinished = 1;
  concurrency = pos 1;
  consumers = str "first" ∷ str "second" ∷ [];
  fallback = none;
  dlo_callback = none;
  workers = consuming sms 0 ∷ [];
  running = true;
  total_enqueued = 1;
  total_delivered = 0;
  total_failed = 0;
  total_dead_lettered = 0;
  stopping = 0;
}

-- The first consumer raises, the second one delivers.
abbrev second_answers : ℕ → Outcome
second_answers i = if i == 0 then raised (str "down") else returned true

run-dispatched_example :
    run (answers_from 0 second_answers 0 2) busy_queue
    ≡ dispatched 0 second_answers 0 2 busy_queue sms
run-dispatched_example = run-dispatched 0 second_answers 1 0 busy_queue sms refl (omega arith)

-- The worker is cancelled while it awaits the consumer.
abbrev shutdown : List Event
shutdown = stops ∷ stop_ends ∷ enqueues sms ∷ []

run-IsBalanced_example : let (q, fx) = run shutdown busy_queue in IsBalanced (0 + lost fx) q
run-IsBalanced_example = run-IsBalanced shutdown busy_queue 0 (refl, refl)

-- The text of a token.
abbrev tail : Text → Option Text
tail [] = none
tail (x ∷ t) = some t

-- The same queue with a fallback, and consumers that all fail.
abbrev fallback_answers : ℕ → Outcome
fallback_answers i = if i == 2 then returned true else returned false

abbrev with_fallback : MessageQueue
with_fallback = record busy_queue { fallback = some (str "email") }

round_delivers_example :
    (run
      (worker 0 (answers (returned true)) ∷ [])
      (run (answers_from 0 fallback_answers 0 2) with_fallback).0).0.total_delivered
    ≡ 1
round_delivers_example =
    round_delivers 0 fallback_answers 1 with_fallback sms refl (omega arith) refl
