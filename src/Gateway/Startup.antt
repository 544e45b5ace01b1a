-- ===== src/Gateway/Startup.antt =====
-- backend/main.py: the start of the lifespan. The clients that its end closes are in Shutdown.
use indian_sim_sms_gateway.Prelude.{true, none, some, []}
use indian_sim_sms_gateway.Prelude.Int.{pos}
use indian_sim_sms_gateway.Prelude.Text.{str}
use indian_sim_sms_gateway.Prelude.Clock.{seconds}
use indian_sim_sms_gateway.Settings.{GatewaySettings}
use indian_sim_sms_gateway.Queue.State.{
  MessageQueue, init, register_consumer, register_fallback, register_dlo,
}
use indian_sim_sms_gateway.Queue.Run.{start}
use indian_sim_sms_gateway.DeadLetter.Redis.{RedisClient}
use indian_sim_sms_gateway.DeadLetter.Office
use indian_sim_sms_gateway.CtoAgent.Agent
use indian_sim_sms_gateway.Health.Monitor
use indian_sim_sms_gateway.Telegram.Dispatcher
use indian_sim_sms_gateway.Email
use indian_sim_sms_gateway.Gateway.Requests.{Gateway}

-- Before the lifespan.
abbrev pub no_components : (c : RedisClient) → Gateway c
no_components c = record {
  message_queue = none;
  telegram = none;
  email_dispatch = none;
  dlo = none;
  health_monitor = none;
  cto_agent = none;
}

-- The queue with its three callbacks, before its workers start.
unfoldable pub wired_queue : GatewaySettings → MessageQueue
wired_queue s = register_dlo (str "DeadLetterOffice.capture") (
    register_fallback (str "EmailDispatcher.send") (
      register_consumer (str "TelegramDispatcher.send")
        (init s.queue_max_size s.consumer_concurrency)))

unfoldable pub startup : (c : RedisClient) → GatewaySettings → Gateway c
startup c s =
    let monitor =
      Monitor.init s.battery_low_threshold s.signal_low_threshold s.heartbeat_timeout_seconds
        s.health_check_interval_seconds s.queue_max_size in
    record {
      message_queue = some (start (wired_queue s)).0;
      telegram = some (
          Dispatcher.init [] [] (pos 5) (seconds 1) (seconds 60) s.telegram_bot_token
            s.telegram_chat_id);
      email_dispatch = some (
          Email.init [] (pos 0) [] [] [] (pos 3) (record {
            smtp_host = s.smtp_host;
            smtp_port = s.smtp_port;
            smtp_username = s.smtp_username;
            smtp_password = s.smtp_password;
            email_recipient = s.email_recipient;
          }));
      dlo = some (Office.init c none s.dlo_ttl_hours s.dlo_ttl_hours);
      health_monitor = some (record monitor { running = true });
      cto_agent = some (
          Agent.init [] [] (pos 300) (pos 100) s.n8n_webhook_url s.n8n_webhook_secret
            s.alert_cooldown_seconds);
    }
