-- ===== src/Health/Status.antt =====
-- The overall status that `evaluate` comes to, against a description of it.
use indian_sim_sms_gateway.Prelude.{
  ℕ, ◌≡◌, refl, ◌∙◌, ap, Bool, true, false, ◌&&◌, ◌||◌, [], ◌∷◌, arith, is_empty, if◌then◌else◌,
}
use indian_sim_sms_gateway.Prelude.Int.{pos, ltb_ℤ}
use indian_sim_sms_gateway.Prelude.Text.{Text}
use indian_sim_sms_gateway.Prelude.Dict.{Dict}
use indian_sim_sms_gateway.Prelude.Clock.{Time}
use indian_sim_sms_gateway.Health.Node.{
  HealthStatus, healthy, degraded, critical, unknown, at_least_degraded, NodeTelemetry,
}
use indian_sim_sms_gateway.Health.Monitor.{
  HealthMonitor, Findings, is_silent, is_battery_low, is_signal_weak, has_many_resets, is_used_over,
  check_node, check_nodes, check_queue, check_registered, evaluate,
}

-- Some registered node passes the test.
abbrev pub any_node : (NodeTelemetry → Bool) → Dict NodeTelemetry → Bool
any_node p [] = false
any_node p ((id, n) ∷ d) = p n || any_node p d

abbrev pub is_troubled : HealthMonitor → NodeTelemetry → Bool
is_troubled h n = is_battery_low h n || (is_signal_weak h n || has_many_resets n)

-- A status after a critical finding, a lesser one, or none.
abbrev raised_to : HealthStatus → Bool → Bool → HealthStatus
raised_to s true t = critical
raised_to s false true = at_least_degraded s
raised_to s false false = s

raised_twice :
    (s : HealthStatus) (c t c' t' : Bool)
    → raised_to (raised_to s c t) c' t' ≡ raised_to s (c || c') (t || t')
raised_twice s c t c' t' = ground arith

check_node-status :
    (h : HealthMonitor) (now : Time) (id : Text) (n : NodeTelemetry) (f : Findings)
    → (check_node h now id n f).0 ≡ raised_to f.0 (is_silent h now n) (is_troubled h n)
unfolding check_node
check_node-status h now id n f = ground arith

check_nodes-status :
    (h : HealthMonitor) (now : Time) (d : Dict NodeTelemetry) (f : Findings)
    → (check_nodes h now d f).0
      ≡ raised_to f.0 (any_node (is_silent h now) d) (any_node (is_troubled h) d)
unfolding check_nodes
check_nodes-status h now [] f = refl
check_nodes-status h now ((id, n) ∷ d) f =
    check_nodes-status h now d (check_node h now id n f)
    ∙ ap (λ s. raised_to s (any_node (is_silent h now) d) (any_node (is_troubled h) d))
        (check_node-status h now id n f)
    ∙ raised_twice f.0 (is_silent h now n) (is_troubled h n) (any_node (is_silent h now) d)
        (any_node (is_troubled h) d)

-- The queue has a limit, and is filled to more than that many tenths of it.
abbrev pub is_filled_over : ℕ → HealthMonitor → Bool
is_filled_over tenths h = ltb_ℤ (pos 0) h.queue_max_size && is_used_over tenths h

check_queue-status :
    (h : HealthMonitor) (f : Findings)
    → (check_queue h f).0 ≡ raised_to f.0 (is_filled_over 9 h) (is_filled_over 7 h)
unfolding check_queue
check_queue-status h f = ground arith

-- The status that the monitor's documentation describes.
abbrev pub expected_status : HealthMonitor → Time → HealthStatus
expected_status h now =
    if is_empty h.nodes
    then unknown
    else if any_node (is_silent h now) h.nodes || is_filled_over 9 h
    then critical
    else if any_node (is_troubled h) h.nodes || is_filled_over 7 h
    then degraded
    else healthy

raised_from_healthy :
    (c t : Bool) → raised_to healthy c t ≡ (if c then critical else if t then degraded else healthy)
raised_from_healthy c t = ground arith

check_registered-status :
    (h : HealthMonitor) (f : Findings)
    → (check_registered h f).0 ≡ (if is_empty h.nodes then unknown else f.0)
unfolding check_registered
check_registered-status h f = ground arith

-- With no node the status is unknown. Else it is critical exactly if a node is silent for longer
-- than the timeout or the queue is over 90 % full; else degraded exactly if a node's battery is
-- low, its signal weak or its watchdog resets many, or the queue is over 70 % full; else healthy.
pub evaluate-status :
    (h : HealthMonitor) (now : Time) → (evaluate now h).status ≡ expected_status h now
unfolding evaluate
evaluate-status h now =
    let f = check_nodes h now h.nodes (healthy, []) in
    let silent = any_node (is_silent h now) h.nodes in
    let troubled = any_node (is_troubled h) h.nodes in
    let queue_status =
      check_queue-status h f
      ∙ ap (λ s. raised_to s (is_filled_over 9 h) (is_filled_over 7 h))
          (check_nodes-status h now h.nodes (healthy, []))
      ∙ raised_twice healthy silent troubled (is_filled_over 9 h) (is_filled_over 7 h)
      ∙ raised_from_healthy (silent || is_filled_over 9 h) (troubled || is_filled_over 7 h) in
    check_registered-status h (check_queue h f)
    ∙ ap (λ s. if is_empty h.nodes then unknown else s) queue_status
