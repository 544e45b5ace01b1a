-- ===== src/Health/Alarm.antt =====
-- From a node that has gone silent to the agent's answer, and the alerts that are not raised.
use indian_sim_sms_gateway.Prelude.{
  ℕ, ◌≡◌, refl, inl, inr, ◌∙◌, Bool, true, false, some, List, [], ◌∷◌, ◌++◌, is_empty,
  if◌then◌else◌, Bool-cases,
}
use indian_sim_sms_gateway.Prelude.Int.{pos, ltb_ℤ}
use indian_sim_sms_gateway.Prelude.Text.{Text, str, text_eq, show_int}
use indian_sim_sms_gateway.Prelude.Dict.{Dict}
use indian_sim_sms_gateway.Prelude.Json.{Json}
use indian_sim_sms_gateway.Prelude.Clock.{Time, elapsed, whole_seconds}
use indian_sim_sms_gateway.Health.Node.{
  HealthStatus, healthy, critical, unknown, at_least_degraded, NodeTelemetry,
}
use indian_sim_sms_gateway.Health.Monitor.{
  HealthMonitor, Findings, is_silent, is_battery_low, is_signal_weak, has_many_resets, is_used_over,
  check_heartbeat, check_signal, check_resets, check_node, check_nodes, check_queue,
  check_registered, evaluate, silent_issue, note_issue, battery_issue, signal_issue, resets_issue,
  of_queue,
}
use indian_sim_sms_gateway.Health.Report.{AlertCallback, get_report, check_once}
use indian_sim_sms_gateway.Health.Status.{any_node, evaluate-status}
use indian_sim_sms_gateway.CtoAgent.Triage.{Says, SomeSays, here, there}
use indian_sim_sms_gateway.CtoAgent.Incident
use indian_sim_sms_gateway.CtoAgent.Agent.{evaluate_severity, determine_action}
use indian_sim_sms_gateway.CtoAgent.Triage.{heartbeat_first}
use mathlib.Core.List.{append_assoc}

-- Issues stay in the list as it grows.
SomeSays-append :
    (phrase : Text) (is js : List Text) → SomeSays phrase is → SomeSays phrase (is ++ js)
SomeSays-append phrase [] js h = elim h [ ]
SomeSays-append phrase (i ∷ is) js (here h) = here h
SomeSays-append phrase (i ∷ is) js (there h) = there (SomeSays-append phrase is js h)

SomeSays-last :
    (phrase : Text) (is : List Text) (i : Text) → Says phrase i → SomeSays phrase (is ++ (i ∷ []))
SomeSays-last phrase [] i h = here h
SomeSays-last phrase (j ∷ is) i h = there (SomeSays-last phrase is i h)

module _ (phrase : Text) where
  noted-keeps :
      (b : Bool) (f : HealthStatus → HealthStatus) (issue : Text) (g : Findings)
      → SomeSays phrase g.1
      → SomeSays phrase (if b then note_issue f issue g else g).1
  noted-keeps true f issue g h = SomeSays-append phrase g.1 (issue ∷ []) h
  noted-keeps false f issue g h = h

  check_heartbeat-keeps :
      (h : HealthMonitor) (now : Time) (id : Text) (n : NodeTelemetry) (f : Findings)
      → SomeSays phrase f.1
      → SomeSays phrase (check_heartbeat h now id n f).1
  unfolding check_heartbeat
  check_heartbeat-keeps h now id n f s = elim (Bool-cases (is_silent h now n)) [
    | inl e ↦ rw e (SomeSays-append phrase f.1 (silent_issue id now n ∷ []) s)
    | inr e ↦ rw e (noted-keeps (is_battery_low h n) at_least_degraded (battery_issue id n) f s)
  ]

  check_rest-keeps :
      (h : HealthMonitor) (id : Text) (n : NodeTelemetry) (f : Findings)
      → SomeSays phrase f.1
      → SomeSays phrase (check_resets id n (check_signal h id n f)).1
  unfolding check_resets check_signal
  check_rest-keeps h id n f s =
      noted-keeps (has_many_resets n) at_least_degraded (resets_issue id n) (check_signal h id n f)
        (noted-keeps (is_signal_weak h n) at_least_degraded (signal_issue id n) f s)

  check_nodes-keeps :
      (h : HealthMonitor) (now : Time) (d : Dict NodeTelemetry) (f : Findings)
      → SomeSays phrase f.1
      → SomeSays phrase (check_nodes h now d f).1
  unfolding check_nodes check_node
  check_nodes-keeps h now [] f s = s
  check_nodes-keeps h now ((id, n) ∷ d) f s = check_nodes-keeps h now d (check_node h now id n f) (
      check_rest-keeps h id n (check_heartbeat h now id n f) (check_heartbeat-keeps h now id n f s))

  check_queue-keeps :
      (h : HealthMonitor) (f : Findings) → SomeSays phrase f.1 → SomeSays phrase (check_queue h f).1
  unfolding check_queue
  check_queue-keeps h f s = elim (Bool-cases (ltb_ℤ (pos 0) h.queue_max_size)) [
    | inr e ↦ rw e s
    | inl e ↦ elim (Bool-cases (is_used_over 9 h)) [
      | inl over ↦
          rw (e, over)
            (SomeSays-append phrase f.1 ((str "Queue near capacity" ++ of_queue h) ∷ []) s)
      | inr under ↦
          rw (e, under)
            (noted-keeps (is_used_over 7 h) at_least_degraded (str "Queue elevated" ++ of_queue h) f
              s)
    ]
  ]

silent_issue-Says :
    (id : Text) (now : Time) (n : NodeTelemetry)
    → Says (str "heartbeat timeout") (silent_issue id now n)
silent_issue-Says id now n = (
  str "Node " ++ (id ++ str ": "),
  str " (" ++ (show_int (whole_seconds (elapsed now n.last_seen)) ++ str "s ago)"),
  simp append_assoc,
)

check_nodes-silent :
    (h : HealthMonitor) (now : Time) (d : Dict NodeTelemetry) (f : Findings)
    → any_node (is_silent h now) d ≡ true
    → SomeSays (str "heartbeat timeout") (check_nodes h now d f).1
unfolding check_nodes check_node check_heartbeat
check_nodes-silent h now [] f e = cc
check_nodes-silent h now ((id, n) ∷ d) f e = elim (Bool-cases (is_silent h now n)) [
  | inl yes_silent ↦ check_nodes-keeps (str "heartbeat timeout") h now d (check_node h now id n f) (
      check_rest-keeps (str "heartbeat timeout") h id n (check_heartbeat h now id n f) (
        rw yes_silent (
          SomeSays-last (str "heartbeat timeout") f.1 (silent_issue id now n)
            (silent_issue-Says id now n))))
  | inr awake ↦ check_nodes-silent h now d (check_node h now id n f) (rw awake at e)
]

nonempty_of_any :
    (p : NodeTelemetry → Bool) (d : Dict NodeTelemetry) → any_node p d ≡ true → is_empty d ≡ false
nonempty_of_any p [] e = cc
nonempty_of_any p (x ∷ d) e = refl

evaluate-silent :
    (h : HealthMonitor) (now : Time)
    → any_node (is_silent h now) h.nodes ≡ true
    → ((evaluate now h).status ≡ critical)
      × SomeSays (str "heartbeat timeout") (evaluate now h).issues
unfolding evaluate check_registered
evaluate-silent h now e =
    let full = nonempty_of_any (is_silent h now) h.nodes e in
    (
      evaluate-status h now ∙ rw (full, e) refl,
      rw full (
          check_queue-keeps (str "heartbeat timeout") h (check_nodes h now h.nodes (healthy, []))
            (check_nodes-silent h now h.nodes (healthy, []) e)),
    )

module _ (percentage : ℕ → ℕ → Json) {S : Type 0} (alert : AlertCallback S) where
  -- When a node has been silent for longer than the timeout, the round of the check loop calls
  -- the registered callback once, with the type critical, the issues and the report of that
  -- evaluation; and on such issues the agent decides for the severity critical and a restart
  -- of the network switch.
  pub silent_node_restarts_switch :
      (h : HealthMonitor) (now later : Time) (s : S)
      → any_node (is_silent h now) h.nodes ≡ true
      → let h' = evaluate now h in
        (check_once percentage (some alert) now later (h, s)
          ≡ (h', alert (str "critical") h'.issues (get_report percentage later h') s))
        × (evaluate_severity (str "critical") h'.issues ≡ Incident.critical)
        × (determine_action h'.issues ≡ Incident.restart_network_switch)
  unfolding check_once text_eq
  silent_node_restarts_switch h now later s e =
      let (status, says) = evaluate-silent h now e in
      let (severity, action) = heartbeat_first (str "critical") (evaluate now h).issues says in
      (rw status refl, severity, action)

  -- While no node is registered, the status is unknown and no round of the check loop raises
  -- an alert, however full the queue is.
  pub no_nodes_no_alert :
      (h : HealthMonitor) (now later : Time) (s : S)
      → h.nodes ≡ []
      → ((check_once percentage (some alert) now later (h, s)).1 ≡ s)
        × ((evaluate now h).status ≡ unknown)
  unfolding check_once text_eq
  no_nodes_no_alert h now later s e =
      let status : (evaluate now h).status ≡ unknown = evaluate-status h now ∙ rw e refl in
      (rw status refl, status)
