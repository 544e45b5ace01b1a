-- ===== src/Gateway/Reporting.antt =====
-- What a telemetry request leaves in the monitor.
use indian_sim_sms_gateway.Prelude.{
  ◌≡◌, refl, ap, ◌∙◌, Option-cases, inl, inr, Option, none, some, if◌then◌else◌,
}
use indian_sim_sms_gateway.Prelude.Int.{pos, negsuc}
use indian_sim_sms_gateway.Prelude.Text.{Text, text_eq}
use indian_sim_sms_gateway.Prelude.Dict.{lookup, insert, lookup-insert}
use indian_sim_sms_gateway.Prelude.Clock.{Time}
use indian_sim_sms_gateway.Queue.State.{MessageQueue}
use indian_sim_sms_gateway.DeadLetter.Redis.{RedisClient}
use indian_sim_sms_gateway.Health.Node.{NodeTelemetry}
use indian_sim_sms_gateway.Health.Monitor.{
  HealthMonitor, update_telemetry, update_queue_depth, or_else,
}
use indian_sim_sms_gateway.Gateway.Requests.{TelemetryRequest, Gateway, model_dump}
use indian_sim_sms_gateway.Gateway.Endpoints.{receive_telemetry, take_depth}

-- The telemetry of a node, if there are a monitor and the node.
abbrev pub node_in : Text → Option HealthMonitor → Option NodeTelemetry
node_in id none = none
node_in id (some h) = lookup id h.nodes

-- The node of a request: its own id, what the request says, and the defaults for the rest.
abbrev pub node_of : TelemetryRequest → Text → Time → NodeTelemetry
node_of r id now = record {
  node_id = id;
  battery_mv = or_else r.battery_mv (pos 0);
  wifi_rssi = or_else r.wifi_rssi (negsuc 126);
  wifi_state = or_else r.wifi_state (pos 0);
  reconnects = or_else r.reconnects (pos 0);
  wdt_resets = or_else r.wdt_resets (pos 0);
  stored_sms_ids = or_else r.stored_sms_ids (pos 0);
  uptime_sec = or_else r.uptime_sec (pos 0);
  heap_free = or_else r.heap_free (pos 0);
  last_seen = now;
}

-- The id that a node was registered with.
abbrev pub own_id : Text → Option NodeTelemetry → Text
own_id id none = id
own_id id (some n) = n.node_id

take_depth-nodes :
    (c : RedisClient) (q : Option MessageQueue) (h : HealthMonitor) (r : TelemetryRequest)
    (now : Time)
    → (take_depth c q (update_telemetry (model_dump r) now h)).nodes
      ≡ insert r.node_id (node_of r (own_id r.node_id (lookup r.node_id h.nodes)) now) h.nodes
unfolding update_telemetry update_queue_depth
take_depth-nodes c none h r now = elim (Option-cases (lookup r.node_id h.nodes)) [
  | inl e ↦ rw e refl
  | inr (n, e) ↦ rw e refl
]
take_depth-nodes c (some q) h r now = elim (Option-cases (lookup r.node_id h.nodes)) [
  | inl e ↦ rw e refl
  | inr (n, e) ↦ rw e refl
]

-- After a telemetry request to a gateway with a monitor, the monitor knows its node as seen at
-- that time, with the readings of the request and the defaults for those that it leaves out,
-- whatever was known of the node before; and every other node as before.
pub receive_telemetry-resets :
    (c : RedisClient) (g : Gateway c) (h : HealthMonitor) (r : TelemetryRequest) (now : Time)
    (id : Text)
    → g.health_monitor ≡ some h
    → node_in id (receive_telemetry c r now g).1.health_monitor ≡ (
        if text_eq r.node_id id
        then some (node_of r (own_id r.node_id (lookup r.node_id h.nodes)) now)
        else lookup id h.nodes)
unfolding receive_telemetry
receive_telemetry-resets c g h r now id up = rw up (
    ap (lookup id) (take_depth-nodes c g.message_queue h r now)
    ∙ lookup-insert r.node_id id (node_of r (own_id r.node_id (lookup r.node_id h.nodes)) now)
        h.nodes)
