-- ===== src/Gateway/Endpoints.antt =====
-- backend/main.py: the endpoints. A handler that puts a message into the queue sees the queue as it
-- is when its wait for a slot is over: with a free slot, or still full.
use indian_sim_sms_gateway.Prelude.{
  ℕ, ◌/◌, Bool, true, false, Option, none, some, [], ◌∷◌, ◌++◌, length, if◌then◌else◌,
}
use mathlib.Core.Option
use indian_sim_sms_gateway.Prelude.Int.{ℤ, pos}
use indian_sim_sms_gateway.Prelude.Text.{Text, str, text_eq, or_text, show_nat}
use indian_sim_sms_gateway.Prelude.Json.{Json, string, number, instant, json_list, json_dict}
use indian_sim_sms_gateway.Prelude.Clock.{Time}
use indian_sim_sms_gateway.Message.{MessagePriority, high, normal, low, QueuedMessage, queued}
use indian_sim_sms_gateway.Queue.State.{MessageQueue, depth}
use indian_sim_sms_gateway.Queue.Step.{Step?, enqueue}
use indian_sim_sms_gateway.DeadLetter.Redis.{RedisClient}
use indian_sim_sms_gateway.DeadLetter.Office.{DeadLetterOffice, list_all}
use indian_sim_sms_gateway.DeadLetter.Recovery.{retry, purge_all}
use indian_sim_sms_gateway.CtoAgent.Agent
use indian_sim_sms_gateway.Queue.State
use indian_sim_sms_gateway.DeadLetter.Recovery
use indian_sim_sms_gateway.Telegram.Dispatcher
use indian_sim_sms_gateway.Email
use indian_sim_sms_gateway.Health.Monitor.{
  HealthMonitor, update_telemetry, update_queue_depth, evaluate,
}
use indian_sim_sms_gateway.Health.Report.{get_report}
use indian_sim_sms_gateway.Gateway.Requests.{
  InboundSmsRequest, TelemetryRequest, model_dump, Response, api_response, http_exception, answer,
  Gateway,
}

-- `priority_map.get(request.priority, MessagePriority.NORMAL)`
abbrev pub priority_of : Text → MessagePriority
priority_of t =
    if text_eq t (str "high") then high else if text_eq t (str "low") then low else normal

-- The message of a request; `stamp` is the formatted time, `max_retries` the setting's.
abbrev pub message_of : InboundSmsRequest → ℤ → Text → Time → Time → QueuedMessage
message_of r max_retries stamp now created = record {
  sms_id = or_text r.sms_id (str "api-" ++ show_nat (now / 3000));
  sender = r.sender;
  body = r.body;
  timestamp = or_text r.timestamp stamp;
  node_id = r.node_id;
  status = queued;
  retry_count = 0;
  max_retries = max_retries;
  created_at = created;
  last_error = [];
  priority = priority_of r.priority;
}

abbrev answered : Step? → MessageQueue → Bool × MessageQueue
answered none q = (false, q)
answered (some (q', fx)) q = (true, q')

-- `await message_queue.enqueue(message)`, with what it returns.
abbrev pub enqueue_now : QueuedMessage → MessageQueue → Bool × MessageQueue
enqueue_now m q = answered (enqueue m q) q

-- `enqueue` as the callback of a manual retry, which raises nothing.
abbrev pub enqueue_callback : QueuedMessage → MessageQueue → Option Bool × MessageQueue
enqueue_callback m q = let (success, q') = enqueue_now m q in (some success, q')

module _ (c : RedisClient) where
  abbrev pub accept_sms : QueuedMessage → Bool × MessageQueue → Gateway c → Response × Gateway c
  accept_sms m (true, q) g = (
    api_response (str "SMS " ++ (m.sms_id ++ str " enqueued for delivery")) (
        json_dict
          ((str "sms_id", string m.sms_id) ∷ (str "queue_depth", number (pos (depth q))) ∷ [])),
    record g { message_queue = some q },
  )
  accept_sms m (false, q) g = (
    http_exception 429 (str "Queue is full — backpressure active"),
    record g { message_queue = some q },
  )

  abbrev pub receive_on : Option MessageQueue → QueuedMessage → Gateway c → Response × Gateway c
  receive_on none m g = (http_exception 503 (str "Queue not initialized"), g)
  receive_on (some q) m g = accept_sms m (enqueue_now m q) g

  unfoldable pub receive_sms :
      InboundSmsRequest → ℤ → Text → Time → Time → Gateway c → Response × Gateway c
  receive_sms r max_retries stamp now created g =
      receive_on g.message_queue (message_of r max_retries stamp now created) g

  abbrev pub take_depth : Option MessageQueue → HealthMonitor → HealthMonitor
  take_depth none h = h
  take_depth (some q) h = update_queue_depth (depth q) h

  unfoldable pub receive_telemetry : TelemetryRequest → Time → Gateway c → Response × Gateway c
  receive_telemetry r now g = (
    api_response (str "Telemetry recorded") (json_dict []),
    elim g.health_monitor [
      | none ↦ g
      | some h ↦ record g {
        health_monitor = some (take_depth g.message_queue (update_telemetry (model_dump r) now h));
      }
    ],
  )

  unfoldable pub get_health : (ℕ → ℕ → Json) → Time → Time → Gateway c → Response × Gateway c
  get_health percentage now later g = elim g.health_monitor [
    | none ↦ (
      answer (
          json_dict
            ((str "status", string (str "starting")) ∷ (str "timestamp", instant now) ∷ [])),
      g,
    )
    | some h ↦
        let h' = evaluate now h in
        (answer (get_report percentage later h'), record g { health_monitor = some h' })
  ]

  unfoldable pub list_dead_letters : Time → Gateway c → Response × Gateway c
  list_dead_letters now g = elim g.dlo [
    | none ↦ (http_exception 503 (str "DLO not initialized"), g)
    | some o ↦
        let (letters, o') = list_all c now o in
        (
          api_response (show_nat (length letters) ++ str " dead-lettered messages") (
              json_dict (
                (str "dead_letters", json_list letters)
                ∷ (str "count", number (pos (length letters)))
                ∷ [])),
          record g { dlo = some o' },
        )
  ]

  abbrev pub retry_response : Text → Bool → Response
  retry_response k true =
      api_response (str "SMS " ++ (k ++ str " re-enqueued from DLO")) (json_dict [])
  retry_response k false = http_exception 404 (str "SMS " ++ (k ++ str " not found in DLO"))

  abbrev pub retry_with :
      Option (DeadLetterOffice c)
      → Option MessageQueue
      → Text
      → Time
      → Gateway c
      → Response × Gateway c
  retry_with none queue k now g = (http_exception 503 (str "System not ready"), g)
  retry_with (some o) none k now g = (http_exception 503 (str "System not ready"), g)
  retry_with (some o) (some q) k now g =
      let (success, o', q') = retry c k now enqueue_callback o q in
      (retry_response k success, record g { dlo = some o'; message_queue = some q' })

  unfoldable pub retry_dead_letter : Text → Time → Gateway c → Response × Gateway c
  retry_dead_letter k now g = retry_with g.dlo g.message_queue k now g

  unfoldable pub purge_dead_letters : Gateway c → Response × Gateway c
  purge_dead_letters g = elim g.dlo [
    | none ↦ (http_exception 503 (str "DLO not initialized"), g)
    | some o ↦
        let (count, o') = purge_all c o in
        (
          api_response (str "Purged " ++ (show_nat count ++ str " dead letters"))
              (json_dict ((str "purged", number (pos count)) ∷ [])),
          record g { dlo = some o' },
        )
  ]

  unfoldable pub get_incidents : ℤ → Gateway c → Response
  get_incidents limit g = elim g.cto_agent [
    | none ↦
        answer (json_dict ((str "incidents", json_list []) ∷ (str "count", number (pos 0)) ∷ []))
    | some a ↦
        let incidents = Agent.get_incidents limit a in
        answer (
          json_dict (
            (str "incidents", json_list incidents)
            ∷ (str "count", number (pos (length incidents)))
            ∷ []))
  ]

-- `GET /`
abbrev pub root : Response
root = answer (
    json_dict (
      (str "service", string (str "Indian SIM SMS Gateway"))
      ∷ (str "version", string (str "1.0.0"))
      ∷ (str "docs", string (str "/docs"))
      ∷ (str "health", string (str "/api/health"))
      ∷ []))

-- The metrics of the components that are there; a missing one gives an empty dict.
pub record AggregateMetrics : Type 0 where
  pub timestamp : Time
  pub queue : Option State.Metrics
  pub telegram : Option Dispatcher.Metrics
  pub email : Option Email.Metrics
  pub dlo : Option Recovery.Metrics
  pub cto_agent : Option Agent.Metrics

unfoldable pub get_metrics : (c : RedisClient) → Time → Gateway c → AggregateMetrics
get_metrics c now g = record {
  timestamp = now;
  queue = Option.map State.metrics g.message_queue;
  telegram = Option.map Dispatcher.metrics g.telegram;
  email = Option.map Email.metrics g.email_dispatch;
  dlo = Option.map (Recovery.metrics c) g.dlo;
  cto_agent = Option.map Agent.metrics g.cto_agent;
}
