-- ===== src/Settings.antt =====
-- backend/config.py: the settings with their defaults, their cache, and the logging setup. What
-- pydantic reads from the environment is given.
use indian_sim_sms_gateway.Prelude.{
  ◌≡◌, refl, Bool-cases, inl, inr, Option, none, some, List, [], ◌∷◌, is_empty, if◌then◌else◌,
}
use indian_sim_sms_gateway.Prelude.Int.{ℤ, pos, negsuc}
use indian_sim_sms_gateway.Prelude.Text.{Text, str}

pub record GatewaySettings : Type 0 where
  pub telegram_bot_token : Text
  pub telegram_chat_id : Text
  pub redis_url : Text
  pub mqtt_broker_host : Text
  pub mqtt_broker_port : ℤ
  pub mqtt_topic_sms : Text
  pub mqtt_topic_telemetry : Text
  pub n8n_webhook_url : Text
  pub n8n_webhook_secret : Text
  pub smtp_host : Text
  pub smtp_port : ℤ
  pub smtp_username : Text
  pub smtp_password : Text
  pub email_recipient : Text
  pub fernet_encryption_key : Text
  pub queue_max_size : ℤ
  pub max_retry_attempts : ℤ
  pub dlo_ttl_hours : ℤ
  pub consumer_concurrency : ℤ
  pub health_check_interval_seconds : ℤ
  pub battery_low_threshold : ℤ
  pub signal_low_threshold : ℤ
  pub heartbeat_timeout_seconds : ℤ
  pub alert_cooldown_seconds : ℤ

abbrev pub default_settings : GatewaySettings
default_settings = record {
  telegram_bot_token = [];
  telegram_chat_id = [];
  redis_url = str "redis://localhost:6379/0";
  mqtt_broker_host = str "localhost";
  mqtt_broker_port = pos 1883;
  mqtt_topic_sms = str "gateway/sms/inbound";
  mqtt_topic_telemetry = str "gateway/telemetry";
  n8n_webhook_url = [];
  n8n_webhook_secret = [];
  smtp_host = str "smtp.gmail.com";
  smtp_port = pos 587;
  smtp_username = [];
  smtp_password = [];
  email_recipient = [];
  fernet_encryption_key = [];
  queue_max_size = pos 10000;
  max_retry_attempts = pos 5;
  dlo_ttl_hours = pos 72;
  consumer_concurrency = pos 3;
  health_check_interval_seconds = pos 30;
  battery_low_threshold = pos 20;
  signal_low_threshold = negsuc 99;
  heartbeat_timeout_seconds = pos 120;
  alert_cooldown_seconds = pos 300;
}

-- `@lru_cache()`: the first call reads, the later ones return what it read.
unfoldable pub get_settings :
    GatewaySettings → Option GatewaySettings → GatewaySettings × Option GatewaySettings
get_settings read none = (read, some read)
get_settings read (some s) = (s, some s)

-- logging's levels and stream handlers, as far as they are used.
pub data Level : Type 0 where
  not_set info warning : Level

pub data Stream : Type 0 where
  stdout stderr : Stream

pub record Handler : Type 0 where
  pub stream : Stream
  pub level : Level
  pub format : Text
  pub date_format : Text

pub record Logger : Type 0 where
  pub level : Level
  pub handlers : List Handler

-- The loggers that the setup touches, by their names.
pub record Loggers : Type 0 where
  pub sms_gateway : Logger
  pub httpx : Logger
  pub uvicorn_access : Logger

-- `logging.StreamHandler()` writes to stderr.
abbrev pub console_handler : Handler
console_handler = record {
  stream = stderr;
  level = info;
  format = str "%(asctime)s | %(levelname)-8s | %(name)s | %(message)s";
  date_format = str "%Y-%m-%d %H:%M:%S";
}

unfoldable pub configure_logging : Loggers → Loggers
configure_logging l = record {
  sms_gateway = record {
    level = info;
    handlers =
        if is_empty l.sms_gateway.handlers then console_handler ∷ [] else l.sms_gateway.handlers;
  };
  httpx = record l.httpx { level = warning };
  uvicorn_access = record l.uvicorn_access { level = warning };
}

-- A second call changes nothing: there is one handler, and no line is logged twice.
pub configure_logging-idempotent :
    (l : Loggers) → configure_logging (configure_logging l) ≡ configure_logging l
unfolding configure_logging
configure_logging-idempotent l = elim (Bool-cases (is_empty l.sms_gateway.handlers)) [
  | inl e ↦ rw e refl
  | inr e ↦ rw (e, e) refl
]
