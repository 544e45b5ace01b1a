-- ===== src/Gateway/Release.antt =====
-- What is left after a shutdown.
use indian_sim_sms_gateway.Prelude.{
  ◌+◌, ℕ, zero, suc, ◌≡◌, refl, ◌∙◌, false, List, [], ◌∷◌, get_elem?, ap, All, ⊤, replicate, arith,
}
use indian_sim_sms_gateway.Prelude.Clock.{Time}
use indian_sim_sms_gateway.Queue.State.{MessageQueue}
use indian_sim_sms_gateway.Queue.Step.{enqueue}
use indian_sim_sms_gateway.Queue.Run.{
  begin_stop, end_stop, Event, enqueues, gives_up, worker, move_at, step, advance, run,
}
use indian_sim_sms_gateway.Health.Watch
use indian_sim_sms_gateway.Health.Watch.{Watch}
use indian_sim_sms_gateway.HttpClient.{Connections, uses, use_all}
use indian_sim_sms_gateway.Telegram.Clients
use indian_sim_sms_gateway.CtoAgent.Clients as AgentClients
use indian_sim_sms_gateway.HttpClient.Laws.{sends, steps_of, IsTidy, closes_all}
use indian_sim_sms_gateway.Queue.Steady.{move_at-Steady, advance-Steady}
use indian_sim_sms_gateway.Health.Silence.{stop-silences}
use indian_sim_sms_gateway.Gateway.Shutdown.{Running, stop_queue, shutdown}

-- What happens while the queue's stop waits: its workers and the producers go on.
abbrev pub IsWork : Event → Type 0
IsWork (enqueues m) = ⊤
IsWork (gives_up m) = ⊤
IsWork (worker w mv) = ⊤
IsWork _ = ⊥

step-stopping :
    (e : Event) (q : MessageQueue)
    → IsWork e
    → let q' = (advance (step e q) q).0 in (q'.running ≡ q.running) × (q'.stopping ≡ q.stopping)
unfolding step enqueue
step-stopping (enqueues m) q h = ground arith
step-stopping (gives_up m) q h = (refl, refl)
step-stopping (worker w mv) q h =
    let s = move_at (get_elem? q.workers w) mv q w in
    let kept = advance-Steady s q (move_at-Steady (get_elem? q.workers w) mv q w) in
    (kept.2, kept.3)
step-stopping _ q h = absurd h

run-stopping :
    (es : List Event) (q : MessageQueue)
    → All IsWork es
    → ((run es q).0.running ≡ q.running) × ((run es q).0.stopping ≡ q.stopping)
unfolding run
run-stopping [] q h = (refl, refl)
run-stopping (e ∷ es) q h =
    let here = step-stopping e q h.0 in
    let later = run-stopping es (advance (step e q) q).0 h.1 in (later.0 ∙ here.0, later.1 ∙ here.1)

end_stop-ends :
    (q : MessageQueue)
    → (n : ℕ) → q.stopping ≡ n + 1
    → let q' = (advance (end_stop q) q).0 in (q'.running ≡ q.running) × (q'.workers ≡ [])
unfolding end_stop
end_stop-ends q n h = ground arith

stop_queue-ends :
    (waited : List Event) (q : MessageQueue)
    → All IsWork waited
    → let q' = stop_queue waited q in (q'.running ≡ false) × (q'.workers ≡ [])
unfolding stop_queue begin_stop
stop_queue-ends waited q h =
    let kept = run-stopping waited (begin_stop q) h in
    let ends = end_stop-ends (run waited (begin_stop q)).0 q.stopping kept.1 in
    (ends.0 ∙ kept.0, ends.1)

-- That many sends are calls without a close.
steps_of-sends : (n : ℕ) → steps_of (replicate n sends) ≡ replicate n uses
steps_of-sends zero = refl
steps_of-sends (suc n) = ap (λ us. uses ∷ us) (steps_of-sends n)

closed_after_sends :
    (n : ℕ) (s : Connections)
    → IsTidy s
    → (Clients.close (use_all Clients.client_config (replicate n uses) s)).opened ≡ []
closed_after_sends n s tidy =
    rw (steps_of-sends n) at (closes_all Clients.client_config (replicate n sends) s tidy).1

closed : (s : Connections) → IsTidy s → (AgentClients.close s).opened ≡ []
unfolding use_all
closed s tidy = (closes_all AgentClients.client_config [] s tidy).1

-- After the shutdown of a gateway whose dispatcher and agent have at most the client open that they
-- keep, whatever the queue's workers and producers do while its stop waits, and however many
-- messages that sends: the queue is off and has no workers, no HTTP client is open, and no
-- task of the health monitor evaluates or raises an alert any more.
pub shutdown-Releases :
    (waited : List Event) (sends : ℕ) (r : Running) (ts : List (Time × ℕ))
    → All IsWork waited
    → IsTidy r.telegram
    → IsTidy r.cto_agent
    → let r' = shutdown waited sends r in
      (r'.message_queue.running ≡ false)
      × (r'.message_queue.workers ≡ [])
      × (r'.telegram.opened ≡ [])
      × (r'.cto_agent.opened ≡ [])
      × ((Watch.resume_all ts r'.health_monitor).1 ≡ [])
unfolding shutdown
shutdown-Releases waited n r ts work tidy_telegram tidy_agent =
    let (off, gone) = stop_queue-ends waited r.message_queue work in
    (
      off,
      gone,
      closed_after_sends n r.telegram tidy_telegram,
      closed r.cto_agent tidy_agent,
      (stop-silences ts r.health_monitor).1,
    )
