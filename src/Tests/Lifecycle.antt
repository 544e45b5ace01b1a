-- ===== src/Tests/Lifecycle.antt =====
-- The start, the end and the termination of the parts, at small instances.
use indian_sim_sms_gateway.Prelude.{
  ℕ, zero, suc, ◌+◌, ◌≤◌, ◌≡◌, refl, inl, inr, true, false, none, some, List, [], ◌∷◌, get_elem?,
  arith,
}
use indian_sim_sms_gateway.Prelude.Int.{pos, negsuc}
use indian_sim_sms_gateway.Prelude.Text.{str}
use indian_sim_sms_gateway.Message.{QueuedMessage, new_message}
use indian_sim_sms_gateway.Queue.State.{MessageQueue, Phase, polling, consuming}
use indian_sim_sms_gateway.Queue.Step.{returned, take_head}
use indian_sim_sms_gateway.Queue.Run.{
  Event, worker, begins, get_times_out, takes, wakes, puts, answers, move, step, run,
}
use indian_sim_sms_gateway.Queue.Spending.{energy}
use indian_sim_sms_gateway.Queue.Termination.{
  Turns, events, worked, run-Ends, IsQuiet, IsIdle, quiet-IsIdle,
}
use indian_sim_sms_gateway.Health.Monitor.{HealthMonitor, init}
use indian_sim_sms_gateway.Health.Watch.{watch_of, on_alert, start, resume_all}
use indian_sim_sms_gateway.HttpClient.{
  Config, Client, Connections, is_open, no_client, begins_close, uses, ends_close, use_all,
}
use indian_sim_sms_gateway.HttpClient.Laws.{send_in_close-leaks}
use indian_sim_sms_gateway.Gateway.Shutdown.{Running, shutdown}
use indian_sim_sms_gateway.Gateway.Release.{shutdown-Releases}

abbrev sms : QueuedMessage
sms = new_message (str "a") (str "+91") (str "otp") (str "now") (str "n1") 7

-- One worker that awaits the only consumer, and an item that waits.
abbrev busy : MessageQueue
busy = record {
  items = sms ∷ [];
  max_size = pos 5;
  unfinished = 2;
  concurrency = pos 1;
  consumers = str "send" ∷ [];
  fallback = none;
  dlo_callback = none;
  workers = consuming sms 0 ∷ [];
  running = true;
  total_enqueued = 2;
  total_delivered = 0;
  total_failed = 0;
  total_dead_lettered = 0;
  stopping = 0;
}

abbrev moves : Turns
moves = (0, answers (returned false)) ∷ (0, get_times_out) ∷ (0, wakes) ∷ (0, takes) ∷ []

run-Ends_example : worked moves busy + energy (run (events moves) busy).0 ≤ energy busy
run-Ends_example = run-Ends moves busy

abbrev idle : MessageQueue
idle = record busy { items = []; workers = polling ∷ [] }

idle-IsQuiet : IsQuiet idle
unfolding step move take_head
idle-IsQuiet zero begins e = refl
idle-IsQuiet zero get_times_out e = absurd (ground arith)
idle-IsQuiet zero takes e = refl
idle-IsQuiet zero wakes e = refl
idle-IsQuiet zero puts e = refl
idle-IsQuiet zero (answers o) e = refl
idle-IsQuiet (suc w) mv e = refl

quiet-IsIdle_example :
    (idle.items ≡ []) × ((v : ℕ) (p : Phase) → get_elem? idle.workers v ≡ some p → IsIdle p)
quiet-IsIdle_example = quiet-IsIdle idle 0 idle-IsQuiet refl refl

abbrev config : Config
config = record { timeout = 30; connect = 10; limits = none }

abbrev client : Client
client = record { number = 0; config = config }

abbrev connected : Connections
connected = record { client = some client; opened = client ∷ []; created = 1; closing = false }

send_in_close-leaks_example :
    is_open
      (record { number = 1; config = config })
      (use_all config
        (begins_close ∷ uses ∷ ends_close ∷ uses ∷ begins_close ∷ ends_close ∷ [])
        connected).opened
    ≡ true
send_in_close-leaks_example =
    send_in_close-leaks config (uses ∷ begins_close ∷ ends_close ∷ []) client connected refl refl

abbrev monitor : HealthMonitor
unfolding init
monitor = init (pos 20) (negsuc 99) (pos 120) (pos 30) (pos 100)

abbrev gateway : Running
unfolding watch_of on_alert start no_client
gateway = record {
  health_monitor = start (on_alert (str "CTOAgent.trigger_alert") (watch_of monitor));
  message_queue = busy;
  telegram = connected;
  cto_agent = no_client;
}

-- The message is delivered while the queue's stop waits, and another one is sent.
abbrev waited : List Event
waited = worker 0 (answers (returned true)) ∷ []

shutdown-Releases_example :
    let g = shutdown waited 1 gateway in
    (g.message_queue.running ≡ false)
    × (g.message_queue.workers ≡ [])
    × (g.telegram.opened ≡ [])
    × (g.cto_agent.opened ≡ [])
    × ((resume_all ((9, 0) ∷ []) g.health_monitor).1 ≡ [])
unfolding no_client gateway
shutdown-Releases_example =
    shutdown-Releases waited 1 gateway ((9, 0) ∷ []) (tt, tt) (refl, inr (client, refl, refl))
      (refl, inl (refl, refl))
