-- ===== src/Gateway/Launch.antt =====
-- The queue that the application starts with.
use indian_sim_sms_gateway.Prelude.{
  ℕ, zero, suc, ap, ◌≡◌, refl, inl, inr, ◌⊎◌, some, arith, length, replicate, total-replicate,
  All-replicate, true,
}
use indian_sim_sms_gateway.Prelude.Int.{ℤ, pos, negsuc, pos_part, ◌≤ℤ◌}
use indian_sim_sms_gateway.Settings.{GatewaySettings}
use indian_sim_sms_gateway.Queue.State.{
  MessageQueue, created, init, register_consumer, register_fallback, register_dlo,
}
use indian_sim_sms_gateway.Queue.Run.{start}
use indian_sim_sms_gateway.Queue.Flow.{weigh_phase}
use indian_sim_sms_gateway.Queue.Order.{IsWithin}
use indian_sim_sms_gateway.Queue.Tasks.{IsAccounted, busy}
use indian_sim_sms_gateway.Queue.Retries.{AllLive, IsLivePhase}
use indian_sim_sms_gateway.Queue.Balance.{IsBalanced, one}
use indian_sim_sms_gateway.DeadLetter.Redis.{RedisClient}
use indian_sim_sms_gateway.Gateway.Startup.{startup, wired_queue}

-- A queue that runs, has one consumer, the workers asked for, none of them begun, and satisfies the
-- invariants.
pub record IsReady (s : GatewaySettings) (q : MessageQueue) : Type 0 where
  pub is_running : q.running ≡ true
  pub one_consumer : length q.consumers ≡ 1
  pub worker_count : length q.workers ≡ pos_part s.consumer_concurrency
  pub within : IsWithin q
  pub accounted : IsAccounted q
  pub all_live : AllLive q
  pub balanced : IsBalanced 0 q

length-replicate : {A : Type 0} (n : ℕ) (a : A) → length (replicate n a) ≡ n
length-replicate zero a = refl
length-replicate (suc n) a = ap suc (length-replicate n a)

limit_cases : (z : ℤ) → (z ≤ℤ pos 0) ⊎ (pos 0 ≤ℤ z)
limit_cases (pos n) = inr (omega arith)
limit_cases (negsuc n) = inl (omega arith)

-- Whatever the settings, the application starts with a queue that runs, has the one primary
-- consumer and `consumer_concurrency` workers (none, if that is negative), and in which every
-- invariant of the runs holds: the limit, the accounted tasks, the retries left and the balance of
-- the counters.
pub startup-IsReady :
    (c : RedisClient) (s : GatewaySettings)
    → (q : MessageQueue) × ((startup c s).message_queue ≡ some q) × IsReady s q
unfolding startup wired_queue start init register_consumer register_fallback register_dlo
startup-IsReady c s =
    let n = pos_part s.consumer_concurrency in
    (
      (start (wired_queue s)).0,
      refl,
      record {
        is_running = refl;
        one_consumer = refl;
        worker_count = length-replicate n created;
        within = limit_cases s.queue_max_size;
        accounted = omega (arith, total-replicate busy n created refl);
        all_live = (tt, All-replicate IsLivePhase n created tt);
        balanced = (omega (arith, total-replicate (weigh_phase one) n created refl), refl);
      },
    )
