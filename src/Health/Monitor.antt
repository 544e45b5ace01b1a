-- ===== src/Health/Monitor.antt =====
-- backend/health_monitor.py: the class HealthMonitor. The times that a method reads are its
-- arguments. The queue's depth is a length; its quotient by the positive size is compared by
-- products.
use indian_sim_sms_gateway.Prelude.{
  ℕ, ◌*◌, ltb, Bool, false, ◌&&◌, Option, none, some, List, [], ◌∷◌, ◌++◌, is_empty, if◌then◌else◌,
}
use indian_sim_sms_gateway.Prelude.Int.{ℤ, pos, negsuc, pos_part, ltb_ℤ}
use indian_sim_sms_gateway.Prelude.Text.{Text, str, show_int, show_nat}
use indian_sim_sms_gateway.Prelude.Dict.{Dict, lookup, insert}
use indian_sim_sms_gateway.Prelude.Clock.{Time, elapsed, seconds_ℤ, whole_seconds}
use indian_sim_sms_gateway.Health.Node.{
  HealthStatus, healthy, critical, unknown, at_least_degraded, NodeTelemetry, new_node,
  battery_percent,
}

pub record HealthMonitor : Type 0 where
  pub nodes : Dict NodeTelemetry
  pub running : Bool
  pub battery_low : ℤ
  pub signal_low : ℤ
  pub heartbeat_timeout : ℤ
  pub check_interval : ℤ
  pub queue_depth : ℕ
  pub queue_max_size : ℤ
  pub status : HealthStatus
  pub issues : List Text

-- The arguments are the settings' values.
unfoldable pub init : ℤ → ℤ → ℤ → ℤ → ℤ → HealthMonitor
init battery_low signal_low heartbeat_timeout check_interval queue_max_size = record {
  nodes = [];
  running = false;
  battery_low = battery_low;
  signal_low = signal_low;
  heartbeat_timeout = heartbeat_timeout;
  check_interval = check_interval;
  queue_depth = 0;
  queue_max_size = queue_max_size;
  status = unknown;
  issues = [];
}

-- The dict of a telemetry message: a key may be missing.
pub record Telemetry : Type 0 where
  pub node_id : Option Text
  pub battery_mv : Option ℤ
  pub wifi_rssi : Option ℤ
  pub wifi_state : Option ℤ
  pub reconnects : Option ℤ
  pub wdt_resets : Option ℤ
  pub stored_sms_ids : Option ℤ
  pub uptime_sec : Option ℤ
  pub heap_free : Option ℤ

-- `data.get(key, default)`
abbrev pub or_else {ℓ} : {A : Type ℓ} → Option A → A → A
or_else none d = d
or_else (some a) d = a

abbrev pub updated : Telemetry → Time → NodeTelemetry → NodeTelemetry
updated t now n = record {
  node_id = n.node_id;
  battery_mv = or_else t.battery_mv n.battery_mv;
  wifi_rssi = or_else t.wifi_rssi n.wifi_rssi;
  wifi_state = or_else t.wifi_state n.wifi_state;
  reconnects = or_else t.reconnects n.reconnects;
  wdt_resets = or_else t.wdt_resets n.wdt_resets;
  stored_sms_ids = or_else t.stored_sms_ids n.stored_sms_ids;
  uptime_sec = or_else t.uptime_sec n.uptime_sec;
  heap_free = or_else t.heap_free n.heap_free;
  last_seen = now;
}

abbrev pub reported_id : Telemetry → Text
reported_id t = or_else t.node_id (str "unknown")

-- The node is the one that is registered, or a new one, which keeps its place in the dict.
unfoldable pub update_telemetry : Telemetry → Time → HealthMonitor → HealthMonitor
update_telemetry t now h =
    let id = reported_id t in
    let node = or_else (lookup id h.nodes) (new_node id now) in
    record h { nodes = insert id (updated t now node) h.nodes }

unfoldable pub update_queue_depth : ℕ → HealthMonitor → HealthMonitor
update_queue_depth depth h = record h { queue_depth = depth }

-- The overall status and the issues, as `evaluate` builds them up.
abbrev pub Findings : Type 0
Findings = HealthStatus × List Text

abbrev pub note_issue : (HealthStatus → HealthStatus) → Text → Findings → Findings
note_issue f issue (s, is) = (f s, is ++ (issue ∷ []))

abbrev pub to_critical : HealthStatus → HealthStatus
to_critical s = critical

abbrev pub is_silent : HealthMonitor → Time → NodeTelemetry → Bool
is_silent h now n = ltb_ℤ (seconds_ℤ h.heartbeat_timeout) (elapsed now n.last_seen)

abbrev pub is_battery_low : HealthMonitor → NodeTelemetry → Bool
is_battery_low h n = ltb_ℤ (pos (battery_percent n)) h.battery_low

abbrev pub is_signal_weak : HealthMonitor → NodeTelemetry → Bool
is_signal_weak h n = ltb_ℤ n.wifi_rssi h.signal_low && ltb_ℤ (negsuc 126) n.wifi_rssi

abbrev pub has_many_resets : NodeTelemetry → Bool
has_many_resets n = ltb_ℤ (pos 5) n.wdt_resets

abbrev pub about : Text → Text → Text
about node_id what = str "Node " ++ (node_id ++ (str ": " ++ what))

abbrev pub silent_issue : Text → Time → NodeTelemetry → Text
silent_issue id now n = about id (
    str "heartbeat timeout"
    ++ (str " (" ++ (show_int (whole_seconds (elapsed now n.last_seen)) ++ str "s ago)")))

abbrev pub battery_issue : Text → NodeTelemetry → Text
battery_issue id n =
    about id (str "battery low" ++ (str " (" ++ (show_nat (battery_percent n) ++ str "%)")))

abbrev pub signal_issue : Text → NodeTelemetry → Text
signal_issue id n =
    about id (str "signal weak" ++ (str " (" ++ (show_int n.wifi_rssi ++ str " dBm)")))

abbrev pub resets_issue : Text → NodeTelemetry → Text
resets_issue id n =
    about id (str "excessive watchdog resets" ++ (str " (" ++ (show_int n.wdt_resets ++ str ")")))

unfoldable pub check_signal : HealthMonitor → Text → NodeTelemetry → Findings → Findings
check_signal h id n f =
    if is_signal_weak h n then note_issue at_least_degraded (signal_issue id n) f else f

unfoldable pub check_resets : Text → NodeTelemetry → Findings → Findings
check_resets id n f =
    if has_many_resets n then note_issue at_least_degraded (resets_issue id n) f else f

unfoldable pub check_heartbeat : HealthMonitor → Time → Text → NodeTelemetry → Findings → Findings
check_heartbeat h now id n f =
    if is_silent h now n
    then note_issue to_critical (silent_issue id now n) f
    else if is_battery_low h n
    then note_issue at_least_degraded (battery_issue id n) f
    else f

-- The body of the loop over the nodes.
unfoldable pub check_node : HealthMonitor → Time → Text → NodeTelemetry → Findings → Findings
unfolding check_heartbeat check_signal check_resets
check_node h now id n f = check_resets id n (check_signal h id n (check_heartbeat h now id n f))

unfoldable pub check_nodes : HealthMonitor → Time → Dict NodeTelemetry → Findings → Findings
check_nodes h now [] f = f
check_nodes h now ((id, n) ∷ d) f = check_nodes h now d (check_node h now id n f)

-- `queue_utilization > tenths / 10`, for a positive size
abbrev pub is_used_over : ℕ → HealthMonitor → Bool
is_used_over tenths h = ltb (tenths * pos_part h.queue_max_size) (10 * h.queue_depth)

abbrev pub of_queue : HealthMonitor → Text
of_queue h =
    str " (" ++ (show_nat h.queue_depth ++ (str "/" ++ (show_int h.queue_max_size ++ str ")")))

unfoldable pub check_queue : HealthMonitor → Findings → Findings
check_queue h f =
    if ltb_ℤ (pos 0) h.queue_max_size
    then (if is_used_over 9 h
        then note_issue to_critical (str "Queue near capacity" ++ of_queue h) f
        else if is_used_over 7 h
        then note_issue at_least_degraded (str "Queue elevated" ++ of_queue h) f
        else f)
    else f

-- `if not self._nodes:`
unfoldable pub check_registered : HealthMonitor → Findings → Findings
check_registered h f =
    if is_empty h.nodes then note_issue (λ _. unknown) (str "No edge nodes registered") f else f

-- The state that `evaluate` leaves; its result is `get_report` of that.
unfoldable pub evaluate : Time → HealthMonitor → HealthMonitor
evaluate now h =
    let (s, is) = check_registered h (check_queue h (check_nodes h now h.nodes (healthy, []))) in
    record h { status = s; issues = is }
