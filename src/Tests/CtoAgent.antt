-- ===== src/Tests/CtoAgent.antt =====
-- backend/cto_agent.py: the theorems at a series of alerts.
use indian_sim_sms_gateway.Prelude.{◌≡◌, refl, Option, some, List, [], ◌∷◌, arith, newest}
use indian_sim_sms_gateway.Prelude.Int.{ℤ, pos}
use indian_sim_sms_gateway.Prelude.Text.{Text, str}
use indian_sim_sms_gateway.Prelude.Dict.{lookup}
use indian_sim_sms_gateway.Prelude.Json.{string}
use indian_sim_sms_gateway.Prelude.Clock.{Time, seconds}
use indian_sim_sms_gateway.CtoAgent.Incident.{Incident}
use indian_sim_sms_gateway.CtoAgent.Agent.{CtoAgent, Library, Request, new_incident}
use indian_sim_sms_gateway.CtoAgent.Cooldown.{Alert, fires, Spaced, fires-Spaced}
use indian_sim_sms_gateway.CtoAgent.History.{after_all, Tallies, after_all-Tallies}
use indian_sim_sms_gateway.CtoAgent.Newest.{processed, after_all-newest}

abbrev plain : Library
plain = record {
  md5_hexdigest = λ t. t;
  hmac_sha256_hexdigest = λ k t. t;
  float_str = λ t. str "0";
  dumps_sorted = λ j. [];
}

abbrev accepts : Request → Option ℤ
accepts r = some (pos 200)

-- A minute's cooldown, a webhook, and room for two incidents.
abbrev agent : CtoAgent
agent = record {
  webhook_url = str "http://n8n";
  webhook_secret = [];
  cooldown_seconds = pos 60;
  max_incidents = pos 2;
  last_alert_time = [];
  incidents = [];
  total_alerts = 0;
  total_suppressed = 0;
  total_webhooks_sent = 0;
  total_webhook_errors = 0;
}

abbrev at : Time → Alert
at t = record {
  alert_type = str "critical";
  issues = str "Node n1: heartbeat timeout (130s ago)" ∷ [];
  report = string [];
  now = t;
  created = t;
}

abbrev series : List Alert
series = at (seconds 100) ∷ at (seconds 130) ∷ at (seconds 160) ∷ at (seconds 300) ∷ []

fires-Spaced_example :
    Spaced plain accepts (pos 60) 0 (fires plain accepts (str "critical") series agent)
unfolding lookup
fires-Spaced_example = fires-Spaced plain accepts (str "critical") series agent

after_all-Tallies_example :
    let (a, k) = after_all plain accepts series agent in Tallies plain accepts agent a 4 k
after_all-Tallies_example = after_all-Tallies plain accepts series agent

after_all-newest_example :
    (after_all plain accepts series agent).0.incidents
    ≡ newest 2 (processed plain accepts series agent)
after_all-newest_example = after_all-newest plain accepts series agent 1 refl (omega arith)

-- Three incidents.
abbrev three : List Incident
three =
    new_incident plain (str "a") [] 1 1
    ∷ new_incident plain (str "b") [] 2 2
    ∷ new_incident plain (str "c") [] 3 3
    ∷ []

abbrev silence : List Text
silence = str "Queue near capacity (95/100)" ∷ str "Node n1: heartbeat timeout (130s ago)" ∷ []

abbrev battery : List Text
battery = str "Node n1: battery low (12%)" ∷ str "Queue near capacity (95/100)" ∷ []
