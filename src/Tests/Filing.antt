-- ===== src/Tests/Filing.antt =====
-- The queue with the Dead Letter Office, and with the dispatchers, at messages without retries left.
use indian_sim_sms_gateway.Prelude.{◌≡◌, ◌+◌, refl, true, false, none, some, List, [], ◌∷◌, total}
use indian_sim_sms_gateway.Prelude.Int.{pos}
use indian_sim_sms_gateway.Prelude.Text.{str}
use indian_sim_sms_gateway.Prelude.Clock.{Time}
use indian_sim_sms_gateway.Message.{QueuedMessage, new_message}
use indian_sim_sms_gateway.Queue.State.{MessageQueue, consuming}
use indian_sim_sms_gateway.Queue.Step.{returned}
use indian_sim_sms_gateway.Queue.Run.{Event, stops, stop_ends, worker, answers}
use indian_sim_sms_gateway.Queue.Captures.{cut_off_of}
use indian_sim_sms_gateway.Gateway.Filing.{run_filed, IsSettled, run_filed-IsSettled}
use indian_sim_sms_gateway.Gateway.Wiring.{Dispatchers, World, run_wired}
use indian_sim_sms_gateway.Gateway.Delivery.{sent_count, run_wired-sent_count}
use indian_sim_sms_gateway.Tests.DeadLetter.{dict_client, empty}
use indian_sim_sms_gateway.Tests.Dispatchers.{telegram, email, limited_once, second_works}

abbrev spent : QueuedMessage
spent = record (new_message (str "a") (str "+91") (str "otp") (str "now") (str "n1") 7) {
  retry_count = 5;
}

-- Two workers await the only consumer.
abbrev failing : MessageQueue
failing = record {
  items = [];
  max_size = pos 5;
  unfinished = 2;
  concurrency = pos 2;
  consumers = str "send" ∷ [];
  fallback = none;
  dlo_callback = some (str "capture");
  workers = consuming spent 0 ∷ consuming spent 0 ∷ [];
  running = true;
  total_enqueued = 2;
  total_delivered = 0;
  total_failed = 0;
  total_dead_lettered = 0;
  stopping = 0;
}

-- Both messages are dead-lettered; one is captured, and the other worker is cancelled before.
abbrev steps : List (Event × Time)
steps =
    (worker 0 (answers (returned false)), 10)
    ∷ (worker 1 (answers (returned false)), 11)
    ∷ (worker 0 (answers (returned true)), 12)
    ∷ (stops, 13)
    ∷ (stop_ends, 14)
    ∷ []

run_filed-IsSettled_example :
    let (q, fx, o) = run_filed dict_client steps failing empty in
    IsSettled dict_client (0 + total cut_off_of fx) q o
run_filed-IsSettled_example = run_filed-IsSettled dict_client steps failing empty 0 refl refl

abbrev with_fallback : MessageQueue
with_fallback = record failing { fallback = some (str "email") }

abbrev dispatchers : Dispatchers
dispatchers = record { telegram = telegram; email = email }

abbrev up : World
up = record { attempts = limited_once; fault = str "down"; installed = true; smtp = second_works }

-- Not set up, the Telegram dispatcher sends nothing.
abbrev bare : Dispatchers
bare = record dispatchers { telegram = record telegram { bot_token = [] } }

-- Both workers try Telegram, and then the fallback; only the first gets that far before the stop.
abbrev sends : List (Event × World)
sends =
    (worker 0 (answers (returned false)), up)
    ∷ (worker 1 (answers (returned false)), up)
    ∷ (worker 0 (answers (returned false)), up)
    ∷ (stops, up)
    ∷ (stop_ends, up)
    ∷ []

run_wired-sent_count_example :
    let (q, d) = run_wired sends with_fallback bare in
    q.total_delivered + sent_count bare ≡ 0 + sent_count d
run_wired-sent_count_example = run_wired-sent_count sends with_fallback bare
