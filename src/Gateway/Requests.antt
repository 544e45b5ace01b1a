-- ===== src/Gateway/Requests.antt =====
-- backend/main.py: the request and response models, and the global components.
use indian_sim_sms_gateway.Prelude.{ℕ, Bool, Option, some}
use indian_sim_sms_gateway.Prelude.Int.{ℤ, pos, negsuc}
use indian_sim_sms_gateway.Prelude.Text.{Text}
use indian_sim_sms_gateway.Prelude.Json.{Json}
use indian_sim_sms_gateway.Queue.State.{MessageQueue}
use indian_sim_sms_gateway.DeadLetter.Redis.{RedisClient}
use indian_sim_sms_gateway.DeadLetter.Office.{DeadLetterOffice}
use indian_sim_sms_gateway.CtoAgent.Agent.{CtoAgent}
use indian_sim_sms_gateway.Health.Monitor.{HealthMonitor, Telemetry, or_else}
use indian_sim_sms_gateway.Telegram.Dispatcher.{TelegramDispatcher}
use indian_sim_sms_gateway.Email.{EmailDispatcher}

pub record InboundSmsRequest : Type 0 where
  pub sender : Text
  pub body : Text
  pub timestamp : Text
  pub sms_id : Text
  pub node_id : Text
  pub encrypted : Bool
  pub priority : Text

-- The JSON of a telemetry request: every field but the first may be left out.
pub record TelemetryRequest : Type 0 where
  pub node_id : Text
  pub battery_mv : Option ℤ
  pub wifi_rssi : Option ℤ
  pub wifi_state : Option ℤ
  pub reconnects : Option ℤ
  pub wdt_resets : Option ℤ
  pub stored_sms_ids : Option ℤ
  pub uptime_sec : Option ℤ
  pub heap_free : Option ℤ

-- `request.model_dump()`: a field that was left out has its default.
abbrev pub model_dump : TelemetryRequest → Telemetry
model_dump r = record {
  node_id = some r.node_id;
  battery_mv = some (or_else r.battery_mv (pos 0));
  wifi_rssi = some (or_else r.wifi_rssi (negsuc 126));
  wifi_state = some (or_else r.wifi_state (pos 0));
  reconnects = some (or_else r.reconnects (pos 0));
  wdt_resets = some (or_else r.wdt_resets (pos 0));
  stored_sms_ids = some (or_else r.stored_sms_ids (pos 0));
  uptime_sec = some (or_else r.uptime_sec (pos 0));
  heap_free = some (or_else r.heap_free (pos 0));
}

pub data Response : Type 0 where
  -- ApiResponse with success = True: its message and data
  api_response : Text → Json → Response
  -- HTTPException: its status and detail
  http_exception : ℕ → Text → Response
  -- a dict
  answer : Json → Response

-- The global components, which the lifespan sets.
pub record Gateway (c : RedisClient) : Type 0 where
  pub message_queue : Option MessageQueue
  pub telegram : Option TelegramDispatcher
  pub email_dispatch : Option EmailDispatcher
  pub dlo : Option (DeadLetterOffice c)
  pub health_monitor : Option HealthMonitor
  pub cto_agent : Option CtoAgent
