-- ===== src/Tests/Health.antt =====
-- backend/health_monitor.py: the theorems at small monitors.
use indian_sim_sms_gateway.Prelude.{ℕ, ◌*◌, ◌/◌, ◌≡◌, refl, true, some, List, [], ◌∷◌}
use indian_sim_sms_gateway.Prelude.Int.{pos, negsuc}
use indian_sim_sms_gateway.Prelude.Text.{Text, str}
use indian_sim_sms_gateway.Prelude.Json.{Json, number}
use indian_sim_sms_gateway.Prelude.Clock.{seconds}
use indian_sim_sms_gateway.CtoAgent.Incident
use indian_sim_sms_gateway.CtoAgent.Agent.{evaluate_severity, determine_action}
use indian_sim_sms_gateway.Health.Node.{critical, unknown, NodeTelemetry, new_node}
use indian_sim_sms_gateway.Health.Monitor.{HealthMonitor, evaluate}
use indian_sim_sms_gateway.Health.Report.{AlertCallback, check_once}
use indian_sim_sms_gateway.Health.Status.{evaluate-status}
use indian_sim_sms_gateway.Health.Alarm.{silent_node_restarts_switch, no_nodes_no_alert}

abbrev node : NodeTelemetry
node = record (new_node (str "n1") (seconds 100)) { battery_mv = pos 4000; wifi_rssi = negsuc 59 }

-- A full queue, and one node.
abbrev monitor : HealthMonitor
monitor = record {
  nodes = (str "n1", node) ∷ [];
  running = true;
  battery_low = pos 20;
  signal_low = negsuc 79;
  heartbeat_timeout = pos 120;
  check_interval = pos 30;
  queue_depth = 100;
  queue_max_size = pos 100;
  status = unknown;
  issues = [];
}

abbrev percentage : ℕ → ℕ → Json
percentage depth size = number (pos (depth * 100 / size))

-- A callback that keeps the alert types.
abbrev record_type : AlertCallback (List Text)
record_type alert_type issues report types = alert_type ∷ types

evaluate-status_example : (evaluate (seconds 110) monitor).status ≡ critical
evaluate-status_example = evaluate-status monitor (seconds 110)

silent_node_restarts_switch_example :
    let h = evaluate (seconds 300) monitor in
    (check_once percentage (some record_type) (seconds 300) (seconds 301) (monitor, [])
      ≡ (h, str "critical" ∷ []))
    × (evaluate_severity (str "critical") h.issues ≡ Incident.critical)
    × (determine_action h.issues ≡ Incident.restart_network_switch)
silent_node_restarts_switch_example =
    silent_node_restarts_switch percentage record_type monitor (seconds 300) (seconds 301) [] refl

no_nodes_no_alert_example :
    let empty = record monitor { nodes = [] } in
    ((check_once percentage (some record_type) (seconds 300) (seconds 301) (empty, [])).1 ≡ [])
    × ((evaluate (seconds 300) empty).status ≡ unknown)
no_nodes_no_alert_example =
    no_nodes_no_alert percentage record_type (record monitor { nodes = [] }) (seconds 300)
      (seconds 301) [] refl
