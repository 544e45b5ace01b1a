-- ===== src/Tests/Gateway.antt =====
-- backend/main.py: the theorems at a small gateway.
use indian_sim_sms_gateway.Prelude.{ℕ, ◌*◌, ◌/◌, ◌≡◌, refl, true, false, none, some, List, [], ◌∷◌}
use indian_sim_sms_gateway.Prelude.Json.{Json, number}
use indian_sim_sms_gateway.Prelude.Int.{pos}
use indian_sim_sms_gateway.Prelude.Text.{str, text_eq}
use indian_sim_sms_gateway.Prelude.Dict.{lookup}
use indian_sim_sms_gateway.Settings.{default_settings}
use indian_sim_sms_gateway.Message.{QueuedMessage, new_message}
use indian_sim_sms_gateway.Queue.State.{MessageQueue, polling}
use indian_sim_sms_gateway.Queue.Step.{returned}
use indian_sim_sms_gateway.Queue.Run.{takes, answers}
use indian_sim_sms_gateway.DeadLetter.Recovery.{counted}
use indian_sim_sms_gateway.Health.Node.{new_node}
use indian_sim_sms_gateway.Health.Monitor.{HealthMonitor}
use indian_sim_sms_gateway.Health.Node
use indian_sim_sms_gateway.Gateway.Requests.{
  InboundSmsRequest, TelemetryRequest, http_exception, Gateway,
}
use indian_sim_sms_gateway.Gateway.Startup.{startup, no_components}
use indian_sim_sms_gateway.Gateway.Launch.{IsReady, startup-IsReady}
use indian_sim_sms_gateway.Gateway.Endpoints.{receive_telemetry, retry_dead_letter}
use indian_sim_sms_gateway.Gateway.Recovering.{
  items_of, message_in, letter_in, is_ok, retry_dead_letter-moves, retry_dead_letter-full,
}
use indian_sim_sms_gateway.Gateway.Service.{
  sends_sms, asks_health, retries_letter, Activity, requests, works, run_service,
}
use indian_sim_sms_gateway.Gateway.Serving.{Serves, run_service-Serves}
use indian_sim_sms_gateway.Gateway.Reporting.{node_in, receive_telemetry-resets}
use indian_sim_sms_gateway.Tests.DeadLetter.{dict_client, letter, office}

startup-IsReady_example :
    (q : MessageQueue) × ((startup dict_client default_settings).message_queue ≡ some q)
    × IsReady default_settings q
startup-IsReady_example = startup-IsReady dict_client default_settings

-- Room for one item, and none of it taken.
abbrev roomy : MessageQueue
roomy = record {
  items = [];
  max_size = pos 1;
  unfinished = 0;
  concurrency = pos 1;
  consumers = str "send" ∷ [];
  fallback = none;
  dlo_callback = none;
  workers = [];
  running = true;
  total_enqueued = 0;
  total_delivered = 0;
  total_failed = 0;
  total_dead_lettered = 0;
  stopping = 0;
}

abbrev sms : QueuedMessage
sms = new_message (str "b") (str "+91") (str "otp") (str "now") (str "n1") 7

abbrev crowded : MessageQueue
crowded = record roomy { items = sms ∷ []; unfinished = 1 }

abbrev monitor : HealthMonitor
monitor = record {
  nodes =
      (str "n1", record (new_node (str "n1") 5) { battery_mv = pos 4000; wifi_rssi = pos 0 }) ∷ [];
  running = true;
  battery_low = pos 20;
  signal_low = pos 0;
  heartbeat_timeout = pos 120;
  check_interval = pos 30;
  queue_depth = 0;
  queue_max_size = pos 100;
  status = Node.unknown;
  issues = [];
}

abbrev up_with : MessageQueue → Gateway dict_client
up_with q = record (no_components dict_client) {
  message_queue = some q;
  dlo = some office;
  health_monitor = some monitor;
}

abbrev inbound : InboundSmsRequest
inbound = record {
  sender = str "+91";
  body = str "otp";
  timestamp = [];
  sms_id = str "a";
  node_id = str "n1";
  encrypted = false;
  priority = str "high";
}

abbrev served : MessageQueue
served = record roomy { workers = polling ∷ [] }

abbrev percentage : ℕ → ℕ → Json
percentage depth size = number (pos (depth * 100 / size))

-- An SMS comes in and is delivered; then the letter in the office is put back.
abbrev activities : List Activity
activities =
    requests (sends_sms inbound (pos 3) (str "now") 3000 3000)
    ∷ works 0 takes 3001
    ∷ requests (asks_health 3002 3003)
    ∷ works 0 (answers (returned true)) 3004
    ∷ requests (retries_letter (str "a") 3005)
    ∷ []

run_service-Serves_example :
    let (n, g) = run_service dict_client percentage activities (up_with served) in
    Serves dict_client n served g
run_service-Serves_example =
    run_service-Serves dict_client percentage activities (up_with served) served refl

retry_dead_letter-moves_example :
    let (response, g) = retry_dead_letter dict_client (str "a") 20 (up_with roomy) in
    (is_ok response ≡ true)
    × (items_of g.message_queue ≡ message_in letter 20 ∷ [])
    × (letter_in (str "a") g.dlo ≡ none)
unfolding lookup text_eq
retry_dead_letter-moves_example =
    retry_dead_letter-moves dict_client (up_with roomy) roomy refl office (str "a") letter 20 refl
      refl refl refl

retry_dead_letter-full_example :
    let (response, g) = retry_dead_letter dict_client (str "a") 20 (up_with crowded) in
    (response ≡ http_exception 404 (str "SMS a not found in DLO"))
    × (g.message_queue ≡ some crowded)
    × (letter_in (str "a") g.dlo ≡ some (counted letter))
unfolding lookup text_eq
retry_dead_letter-full_example =
    retry_dead_letter-full dict_client (up_with crowded) crowded refl office (str "a") letter 20
      refl refl refl refl

-- A request that says nothing but the node's id.
abbrev bare : TelemetryRequest
bare = record {
  node_id = str "n1";
  battery_mv = none;
  wifi_rssi = none;
  wifi_state = none;
  reconnects = none;
  wdt_resets = none;
  stored_sms_ids = none;
  uptime_sec = none;
  heap_free = none;
}

receive_telemetry-resets_example :
    node_in (str "n1") (receive_telemetry dict_client bare 50 (up_with roomy)).1.health_monitor
    ≡ some (new_node (str "n1") 50)
unfolding lookup text_eq
receive_telemetry-resets_example =
    receive_telemetry-resets dict_client (up_with roomy) monitor bare 50 (str "n1") refl
