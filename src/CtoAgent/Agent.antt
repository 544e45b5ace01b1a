-- ===== src/CtoAgent/Agent.antt =====
-- backend/cto_agent.py: the class CTOAgent. Digests and the text of a float are parameters, as is
-- the answer to a POST; the times that a method reads are its arguments. The monitor's loop awaits
-- each alert before it raises the next one, so a call is one step.
use indian_sim_sms_gateway.Prelude.{
  ℕ, ◌+◌, Bool, true, false, not, ◌&&◌, Option, none, some, List, [], ◌∷◌, ◌++◌, map, length,
  select, take, slice_from, is_empty, if◌then◌else◌,
}
use indian_sim_sms_gateway.Prelude.Int.{ℤ, pos, negate, or_int, ltb_ℤ}
use indian_sim_sms_gateway.Prelude.Text.{
  Text, str, text_eq, or_text, lower, upper_ascii, join, contains,
}
use indian_sim_sms_gateway.Prelude.Dict.{Dict, lookup, insert}
use indian_sim_sms_gateway.Prelude.Json.{Json, string, number, json_dict}
use indian_sim_sms_gateway.Prelude.Clock.{Time, elapsed, seconds_ℤ}
use indian_sim_sms_gateway.CtoAgent.Incident.{
  AlertSeverity, info, warning, critical, emergency, CorrectiveAction, restart_network_switch,
  restart_gateway_node, send_push_notification, drain_message_queue, log_incident, Incident,
  to_dict,
}

pub record CtoAgent : Type 0 where
  pub webhook_url : Text
  pub webhook_secret : Text
  pub cooldown_seconds : ℤ
  pub max_incidents : ℤ
  pub last_alert_time : Dict Time
  pub incidents : List Incident
  pub total_alerts : ℕ
  pub total_suppressed : ℕ
  pub total_webhooks_sent : ℕ
  pub total_webhook_errors : ℕ

-- The last three are the settings' values, which stand in for an empty or zero argument.
unfoldable pub init : Text → Text → ℤ → ℤ → Text → Text → ℤ → CtoAgent
init url secret cooldown max_incidents n8n_url n8n_secret alert_cooldown = record {
  webhook_url = or_text url n8n_url;
  webhook_secret = or_text secret n8n_secret;
  cooldown_seconds = or_int cooldown alert_cooldown;
  max_incidents = max_incidents;
  last_alert_time = [];
  incidents = [];
  total_alerts = 0;
  total_suppressed = 0;
  total_webhooks_sent = 0;
  total_webhook_errors = 0;
}

-- `" ".join(issues).lower()`
unfoldable pub issue_text : List Text → Text
issue_text issues = lower (join (str " ") issues)

-- The keyword tests, in the order of the code.
unfoldable pub severity_of : Text → Text → AlertSeverity
severity_of alert_type text =
    if contains (str "heartbeat timeout") text
    then critical
    else if contains (str "battery") text && contains (str "low") text
    then warning
    else if contains (str "queue near capacity") text
    then emergency
    else if text_eq alert_type (str "critical")
    then critical
    else if text_eq alert_type (str "degraded")
    then warning
    else info

unfoldable pub evaluate_severity : Text → List Text → AlertSeverity
evaluate_severity alert_type issues = severity_of alert_type (issue_text issues)

unfoldable pub action_of : Text → CorrectiveAction
action_of text =
    if contains (str "heartbeat timeout") text
    then restart_network_switch
    else if contains (str "queue near capacity") text
    then drain_message_queue
    else if contains (str "battery low") text
    then send_push_notification
    else if contains (str "signal weak") text
    then restart_network_switch
    else if contains (str "watchdog resets") text
    then restart_gateway_node
    else log_incident

unfoldable pub determine_action : List Text → CorrectiveAction
determine_action issues = action_of (issue_text issues)

-- hashlib.md5 and hmac with SHA-256, as hexadecimal digits, the text of a float, and
-- json.dumps with sorted keys.
pub record Library : Type 0 where
  pub md5_hexdigest : Text → Text
  pub hmac_sha256_hexdigest : Text → Text → Text
  pub float_str : Time → Text
  pub dumps_sorted : Json → Text

-- A POST: the address, the body and the headers; the answer is a status code or an exception.
pub record Request : Type 0 where
  pub url : Text
  pub payload : Json
  pub headers : List (Text × Text)

-- `self._last_alert_time.get(alert_type, 0)`
abbrev pub last_alert : CtoAgent → Text → Time
last_alert a alert_type = elim (lookup alert_type a.last_alert_time) [ none ↦ 0 | some t ↦ t ]

-- `now - last_alert < self._cooldown_seconds`
abbrev pub in_cooldown : CtoAgent → Text → Time → Bool
in_cooldown a alert_type now =
    ltb_ℤ (elapsed now (last_alert a alert_type)) (seconds_ℤ a.cooldown_seconds)

unfoldable pub webhook_payload : CtoAgent → Incident → Json → Json
webhook_payload a i report = json_dict (
    (str "event", string (str "gateway_alert"))
    ∷ (str "incident", to_dict i)
    ∷ (str "health_report", report)
    ∷ (
      str "metadata",
      json_dict (
          (str "gateway_version", string (str "1.0.0"))
          ∷ (str "total_alerts", number (pos a.total_alerts))
          ∷ (str "total_suppressed", number (pos a.total_suppressed))
          ∷ []),
    )
    ∷ [])

-- Append, and drop the oldest beyond the limit.
unfoldable pub store_incident : Incident → CtoAgent → CtoAgent
store_incident i a =
    let all = a.incidents ++ (i ∷ []) in
    record a {
      incidents =
          if ltb_ℤ a.max_incidents (pos (length all))
          then slice_from (negate a.max_incidents) all
          else all;
    }

module _ (lib : Library) where
  unfoldable pub generate_incident_id : Text → Time → Text
  generate_incident_id alert_type timestamp =
      upper_ascii (take 12 (lib.md5_hexdigest (alert_type ++ (str ":" ++ lib.float_str timestamp))))

  unfoldable pub webhook_request : CtoAgent → Incident → Json → Request
  webhook_request a i report =
      let payload = webhook_payload a i report in
      let plain : List (Text × Text) =
        (str "Content-Type", str "application/json")
        ∷ (str "X-Gateway-Event", str "alert")
        ∷ (str "X-Incident-ID", i.incident_id)
        ∷ [] in
      let digest = lib.hmac_sha256_hexdigest a.webhook_secret (lib.dumps_sorted payload) in
      record {
        url = a.webhook_url;
        payload = payload;
        headers =
            if is_empty a.webhook_secret
            then plain
            else plain ++ ((str "X-Webhook-Signature", str "sha256=" ++ digest) ∷ []);
      }

  -- `_send_webhook`, with the answer to each request.
  unfoldable pub send_webhook :
      (Request → Option ℤ) → Incident → Json → CtoAgent → Incident × CtoAgent
  send_webhook post i report a = elim (post (webhook_request a i report)) [
    | none ↦ (i, record a { total_webhook_errors = a.total_webhook_errors + 1 })
    | some code ↦ (
      record i { webhook_sent = true; webhook_response_code = code },
      record a { total_webhooks_sent = a.total_webhooks_sent + 1 },
    )
  ]

  -- The incident, before its webhook; `created` is the time that its constructor reads.
  abbrev pub new_incident : Text → List Text → Time → Time → Incident
  new_incident alert_type issues now created = record {
    incident_id = generate_incident_id alert_type now;
    alert_type = alert_type;
    severity = evaluate_severity alert_type issues;
    issues = issues;
    action = determine_action issues;
    timestamp = created;
    webhook_sent = false;
    webhook_response_code = pos 0;
    resolved = false;
  }

  -- The rest of `trigger_alert`, after the cooldown check.
  unfoldable pub process_alert :
      (Request → Option ℤ) → Text → List Text → Json → Time → Time → CtoAgent → Incident × CtoAgent
  process_alert post alert_type issues report now created a =
      let a' = record a { last_alert_time = insert alert_type now a.last_alert_time } in
      let i = new_incident alert_type issues now created in
      let (i', a'') = if is_empty a'.webhook_url then (i, a') else send_webhook post i report a' in
      (i', store_incident i' a'')

  unfoldable pub trigger_alert :
      (Request → Option ℤ)
      → Text
      → List Text
      → Json
      → Time
      → Time
      → CtoAgent
      → Option Incident × CtoAgent
  trigger_alert post alert_type issues report now created a =
      let a' = record a { total_alerts = a.total_alerts + 1 } in
      if in_cooldown a' alert_type now
      then (none, record a' { total_suppressed = a'.total_suppressed + 1 })
      else let (i, a'') = process_alert post alert_type issues report now created a' in
        (some i, a'')

-- `self._incidents[-limit:]`
unfoldable pub get_incidents : ℤ → CtoAgent → List Json
get_incidents limit a = map to_dict (slice_from (negate limit) a.incidents)

pub record Metrics : Type 0 where
  pub total_alerts : ℕ
  pub total_suppressed : ℕ
  pub total_webhooks_sent : ℕ
  pub total_webhook_errors : ℕ
  pub active_incidents : ℕ

unfoldable pub metrics : CtoAgent → Metrics
metrics a = record {
  total_alerts = a.total_alerts;
  total_suppressed = a.total_suppressed;
  total_webhooks_sent = a.total_webhooks_sent;
  total_webhook_errors = a.total_webhook_errors;
  active_incidents = length (select (λ (i : Incident). not i.resolved) a.incidents);
}
