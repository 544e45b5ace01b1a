-- ===== src/Health/Report.antt =====
-- backend/health_monitor.py: `get_report` and the check loop. The times that one report reads are
-- taken as one; the rounded percentage, a float, is a parameter.
use indian_sim_sms_gateway.Prelude.{ℕ, ◌||◌, Option, none, some, List, [], ◌∷◌, map, if◌then◌else◌}
use indian_sim_sms_gateway.Prelude.Int.{pos, pos_part, ltb_ℤ}
use indian_sim_sms_gateway.Prelude.Text.{Text, str, text_eq}
use indian_sim_sms_gateway.Prelude.Dict.{Dict}
use indian_sim_sms_gateway.Prelude.Json.{Json, string, number, instant, json_list, json_dict}
use indian_sim_sms_gateway.Prelude.Clock.{Time, elapsed, whole_seconds}
use indian_sim_sms_gateway.Health.Node.{status_value, NodeTelemetry, battery_percent}
use indian_sim_sms_gateway.Health.Monitor.{HealthMonitor, evaluate}

-- The callback that `on_alert` registers: the alert's type, the issues and the report, over the
-- state S that it changes.
abbrev pub AlertCallback : Type 0 → Type 0
AlertCallback S = Text → List Text → Json → S → S

-- `round(depth / max_size * 100, 1)`, for a positive size.
module _ (percentage : ℕ → ℕ → Json) where
  abbrev node_report : Time → NodeTelemetry → Json
  node_report now n = json_dict (
      (str "battery_percent", number (pos (battery_percent n)))
      ∷ (str "battery_mv", number n.battery_mv)
      ∷ (str "wifi_rssi", number n.wifi_rssi)
      ∷ (str "uptime_sec", number n.uptime_sec)
      ∷ (str "wdt_resets", number n.wdt_resets)
      ∷ (str "last_seen", instant n.last_seen)
      ∷ (str "last_seen_ago_sec", number (whole_seconds (elapsed now n.last_seen)))
      ∷ (str "heap_free", number n.heap_free)
      ∷ [])

  node_reports : Time → Dict NodeTelemetry → Dict Json
  node_reports now [] = []
  node_reports now ((id, n) ∷ d) = (id, node_report now n) ∷ node_reports now d

  unfoldable pub get_report : Time → HealthMonitor → Json
  unfolding node_reports
  get_report now h = json_dict (
      (str "status", string (status_value h.status))
      ∷ (str "timestamp", instant now)
      ∷ (str "issues", json_list (map string h.issues))
      ∷ (str "nodes", json_dict (node_reports now h.nodes))
      ∷ (
        str "queue",
        json_dict (
            (str "depth", number (pos h.queue_depth))
            ∷ (str "max_size", number h.queue_max_size)
            ∷ (
              str "utilization_percent",
              if ltb_ℤ (pos 0) h.queue_max_size
                  then percentage h.queue_depth (pos_part h.queue_max_size)
                  else number (pos 0),
            )
            ∷ []),
      )
      ∷ [])

  -- One round of the loop: the evaluation at one time, its report at another, and the alert.
  unfoldable pub check_once :
      {S : Type 0} → Option (AlertCallback S) → Time → Time → HealthMonitor × S → HealthMonitor × S
  check_once callback now later (h, s) =
      let h' = evaluate now h in
      let status = status_value h'.status in
      (
        h',
        elim callback [
          | none ↦ s
          | some alert ↦
              if text_eq status (str "degraded") || text_eq status (str "critical")
              then alert status h'.issues (get_report later h') s
              else s
        ],
      )

  -- `while self._running:`, one round for each pair of times.
  unfoldable pub check_loop :
      {S : Type 0}
      → Option (AlertCallback S)
      → List (Time × Time)
      → HealthMonitor × S
      → HealthMonitor × S
  check_loop callback [] hs = hs
  check_loop callback ((now, later) ∷ rounds) (h, s) =
      let after = check_loop callback rounds (check_once callback now later (h, s)) in
      if h.running then after else (h, s)
