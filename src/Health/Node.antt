-- ===== src/Health/Node.antt =====
-- backend/health_monitor.py: HealthStatus and NodeTelemetry.
use indian_sim_sms_gateway.Prelude.{ℕ, ◌-◌, ◌/◌, ◌≤◌, leb, arith, if◌then◌else◌}
use indian_sim_sms_gateway.Prelude.Int.{ℤ, pos, negsuc, pos_part, leb_ℤ, ◌≤ℤ◌}
use indian_sim_sms_gateway.Prelude.Text.{Text, str}
use indian_sim_sms_gateway.Prelude.Clock.{Time}

pub data HealthStatus : Type 0 where
  healthy degraded critical unknown : HealthStatus

-- `HealthStatus.value`
abbrev pub status_value : HealthStatus → Text
status_value healthy = str "healthy"
status_value degraded = str "degraded"
status_value critical = str "critical"
status_value unknown = str "unknown"

-- The place in `list(HealthStatus)`.
abbrev pub index : HealthStatus → ℕ
index healthy = 0
index degraded = 1
index critical = 2
index unknown = 3

-- `max(status, HealthStatus.DEGRADED, key=...)`; of two that are equal the first is taken.
abbrev pub at_least_degraded : HealthStatus → HealthStatus
at_least_degraded s = if leb (index degraded) (index s) then s else degraded

pub record NodeTelemetry : Type 0 where
  pub node_id : Text
  pub battery_mv : ℤ
  pub wifi_rssi : ℤ
  pub wifi_state : ℤ
  pub reconnects : ℤ
  pub wdt_resets : ℤ
  pub stored_sms_ids : ℤ
  pub uptime_sec : ℤ
  pub heap_free : ℤ
  pub last_seen : Time

-- `NodeTelemetry(node_id=node_id)`
abbrev pub new_node : Text → Time → NodeTelemetry
new_node node_id now = record {
  node_id = node_id;
  battery_mv = pos 0;
  wifi_rssi = negsuc 126;
  wifi_state = pos 0;
  reconnects = pos 0;
  wdt_resets = pos 0;
  stored_sms_ids = pos 0;
  uptime_sec = pos 0;
  heap_free = pos 0;
  last_seen = now;
}

-- Between the two bounds the voltage is positive, and `int` of the quotient rounds down.
unfoldable pub percent_of : ℤ → ℕ
percent_of mv =
    if leb_ℤ mv (pos 3000)
    then 0
    else if leb_ℤ (pos 4200) mv
    then 100
    else (pos_part mv - 3000) / 12

abbrev pub battery_percent : NodeTelemetry → ℕ
battery_percent n = percent_of n.battery_mv

-- A higher voltage has no lower percentage, and none is more than 100.
pub percent_of-monotone : (a b : ℤ) → a ≤ℤ b → (percent_of a ≤ percent_of b) × (percent_of b ≤ 100)
unfolding percent_of
percent_of-monotone a b h = ground arith
