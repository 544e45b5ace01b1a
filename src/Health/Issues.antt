-- ===== src/Health/Issues.antt =====
-- The issues that `evaluate` lists, against its status.
use indian_sim_sms_gateway.Prelude.{
  ◌≡◌, ◌≢◌, refl, ◌↔◌, ◌⊎◌, inl, inr, Bool, true, false, List, [], ◌∷◌, ◌++◌, arith, is_empty,
  if◌then◌else◌, Bool-cases,
}
use indian_sim_sms_gateway.Prelude.Int.{pos, ltb_ℤ}
use indian_sim_sms_gateway.Prelude.Text.{Text, str}
use indian_sim_sms_gateway.Prelude.Dict.{Dict}
use indian_sim_sms_gateway.Prelude.Clock.{Time}
use indian_sim_sms_gateway.Health.Node.{
  HealthStatus, healthy, unknown, at_least_degraded, NodeTelemetry,
}
use indian_sim_sms_gateway.Health.Monitor.{
  HealthMonitor, Findings, is_silent, is_battery_low, is_signal_weak, has_many_resets, is_used_over,
  check_heartbeat, check_signal, check_node, check_nodes, check_queue, check_registered, evaluate,
  silent_issue, note_issue, to_critical, battery_issue, signal_issue, resets_issue, of_queue,
}

-- A step keeps the status healthy exactly while there are no issues.
abbrev IsCalm : Findings → Type 0
IsCalm f = ((f.0 ≡ healthy) × (f.1 ≡ [])) ⊎ ((f.0 ≢ healthy) × (f.1 ≢ []))

append-ne-nil : (is : List Text) (i : Text) → is ++ (i ∷ []) ≢ []
append-ne-nil [] i = λ e. cc
append-ne-nil (j ∷ is) i = λ e. cc

-- An issue that is noted under a test, by a rule that leaves no status healthy.
noted : Bool → (HealthStatus → HealthStatus) → Text → Findings → Findings
noted b f issue g = if b then note_issue f issue g else g

noted-IsCalm :
    (b : Bool) (f : HealthStatus → HealthStatus) (issue : Text) (g : Findings)
    → ((s : HealthStatus) → f s ≢ healthy)
    → IsCalm g
    → IsCalm (noted b f issue g)
unfolding noted
noted-IsCalm true f issue g bad c = inr (bad g.0, append-ne-nil g.1 issue)
noted-IsCalm false f issue g bad c = c

critical_is_bad : (s : HealthStatus) → to_critical s ≢ healthy
critical_is_bad s e = cc

degraded_is_bad : (s : HealthStatus) → at_least_degraded s ≢ healthy
degraded_is_bad s e = ground arith

check_node-IsCalm :
    (h : HealthMonitor) (now : Time) (id : Text) (n : NodeTelemetry) (f : Findings)
    → IsCalm f
    → IsCalm (check_node h now id n f)
unfolding check_node noted
check_node-IsCalm h now id n f c =
    let beat = check_heartbeat h now id n f in
    let signal = check_signal h id n beat in
    let calm_beat : IsCalm beat = elim (Bool-cases (is_silent h now n)) [
      | inl e ↦ rw e (inr (critical_is_bad f.0, append-ne-nil f.1 (silent_issue id now n)))
      | inr e ↦ rw e (
          noted-IsCalm (is_battery_low h n) at_least_degraded (battery_issue id n) f degraded_is_bad
            c)
    ] in
    noted-IsCalm (has_many_resets n) at_least_degraded (resets_issue id n) signal degraded_is_bad (
      noted-IsCalm (is_signal_weak h n) at_least_degraded (signal_issue id n) beat degraded_is_bad
        calm_beat)

check_nodes-IsCalm :
    (h : HealthMonitor) (now : Time) (d : Dict NodeTelemetry) (f : Findings)
    → IsCalm f
    → IsCalm (check_nodes h now d f)
unfolding check_nodes
check_nodes-IsCalm h now [] f c = c
check_nodes-IsCalm h now ((id, n) ∷ d) f c =
    check_nodes-IsCalm h now d (check_node h now id n f) (check_node-IsCalm h now id n f c)

check_queue-IsCalm : (h : HealthMonitor) (f : Findings) → IsCalm f → IsCalm (check_queue h f)
unfolding check_queue noted
check_queue-IsCalm h f c = elim (Bool-cases (ltb_ℤ (pos 0) h.queue_max_size)) [
  | inr e ↦ rw e c
  | inl e ↦ elim (Bool-cases (is_used_over 9 h)) [
    | inl over ↦
        rw (e, over)
          (inr (critical_is_bad f.0, append-ne-nil f.1 (str "Queue near capacity" ++ of_queue h)))
    | inr under ↦
        rw (e, under)
          (noted-IsCalm (is_used_over 7 h) at_least_degraded (str "Queue elevated" ++ of_queue h) f
            degraded_is_bad c)
  ]
]

evaluate-IsCalm :
    (h : HealthMonitor) (now : Time) → IsCalm ((evaluate now h).status, (evaluate now h).issues)
unfolding evaluate check_registered noted
evaluate-IsCalm h now =
    noted-IsCalm (is_empty h.nodes) (λ _. unknown) (str "No edge nodes registered")
      (check_queue h (check_nodes h now h.nodes (healthy, []))) (λ _ e. cc)
      (check_queue-IsCalm h _ (check_nodes-IsCalm h now h.nodes (healthy, []) (inl (refl, refl))))

-- The monitor calls the gateway healthy exactly when it lists no issue.
pub healthy_iff_no_issues :
    (h : HealthMonitor) (now : Time)
    → ((evaluate now h).status ≡ healthy) ↔ ((evaluate now h).issues ≡ [])
healthy_iff_no_issues h now = elim (evaluate-IsCalm h now) [
  | inl c ↦ (λ _. c.1, λ _. c.0)
  | inr c ↦ (λ e. absurd (c.0 e), λ e. absurd (c.1 e))
]
