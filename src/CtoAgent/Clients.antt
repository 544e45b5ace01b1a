-- ===== src/CtoAgent/Clients.antt =====
-- backend/cto_agent.py: the HTTP client of the agent.
use indian_sim_sms_gateway.Prelude.{none}
use indian_sim_sms_gateway.HttpClient
use indian_sim_sms_gateway.HttpClient.{Config, Connections}

abbrev pub client_config : Config
client_config = record { timeout = 15; connect = 5; limits = none }

abbrev pub get_client : Connections → Connections
get_client s = HttpClient.get_client client_config s

-- A `close` in whose await no alert comes in.
abbrev pub close : Connections → Connections
close s = HttpClient.end_close (HttpClient.begin_close s)
