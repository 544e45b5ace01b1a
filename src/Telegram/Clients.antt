-- ===== src/Telegram/Clients.antt =====
-- backend/telegram_dispatcher.py: the HTTP client of the dispatcher.
use indian_sim_sms_gateway.Prelude.{some}
use indian_sim_sms_gateway.HttpClient
use indian_sim_sms_gateway.HttpClient.{Config, Connections}

-- Limits of 10 connections, 5 of them kept alive.
abbrev pub client_config : Config
client_config = record { timeout = 30; connect = 10; limits = some (10, 5) }

abbrev pub get_client : Connections → Connections
get_client s = HttpClient.get_client client_config s

-- A `close` in whose await no send comes in.
abbrev pub close : Connections → Connections
close s = HttpClient.end_close (HttpClient.begin_close s)
