-- ===== src/CtoAgent/Incident.antt =====
-- backend/cto_agent.py: severities, actions and incidents.
use indian_sim_sms_gateway.Prelude.{Bool, List, [], ◌∷◌, map}
use indian_sim_sms_gateway.Prelude.Int.{ℤ}
use indian_sim_sms_gateway.Prelude.Text.{Text, str}
use indian_sim_sms_gateway.Prelude.Json.{
  Json, string, number, instant, boolean, json_list, json_dict,
}
use indian_sim_sms_gateway.Prelude.Clock.{Time}

pub data AlertSeverity : Type 0 where
  info warning critical emergency : AlertSeverity

pub data CorrectiveAction : Type 0 where
  restart_network_switch restart_gateway_node send_push_notification : CorrectiveAction
  send_escalation_email drain_message_queue log_incident no_action : CorrectiveAction

-- `AlertSeverity.value`
abbrev pub severity_value : AlertSeverity → Text
severity_value info = str "info"
severity_value warning = str "warning"
severity_value critical = str "critical"
severity_value emergency = str "emergency"

-- `CorrectiveAction.value`
abbrev pub action_value : CorrectiveAction → Text
action_value restart_network_switch = str "restart_network_switch"
action_value restart_gateway_node = str "restart_gateway_node"
action_value send_push_notification = str "send_push_notification"
action_value send_escalation_email = str "send_escalation_email"
action_value drain_message_queue = str "drain_message_queue"
action_value log_incident = str "log_incident"
action_value no_action = str "no_action"

pub record Incident : Type 0 where
  pub incident_id : Text
  pub alert_type : Text
  pub severity : AlertSeverity
  pub issues : List Text
  pub action : CorrectiveAction
  pub timestamp : Time
  pub webhook_sent : Bool
  pub webhook_response_code : ℤ
  pub resolved : Bool

unfoldable pub to_dict : Incident → Json
to_dict i = json_dict (
    (str "incident_id", string i.incident_id)
    ∷ (str "alert_type", string i.alert_type)
    ∷ (str "severity", string (severity_value i.severity))
    ∷ (str "issues", json_list (map string i.issues))
    ∷ (str "action", string (action_value i.action))
    ∷ (str "timestamp", instant i.timestamp)
    ∷ (str "webhook_sent", boolean i.webhook_sent)
    ∷ (str "webhook_response_code", number i.webhook_response_code)
    ∷ (str "resolved", boolean i.resolved)
    ∷ [])
