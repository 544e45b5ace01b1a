-- ===== src/Gateway/Shutdown.antt =====
-- backend/main.py: the second half of the lifespan. The components are there by then.
use indian_sim_sms_gateway.Prelude.{ℕ, List, replicate}
use indian_sim_sms_gateway.Queue.State.{MessageQueue}
use indian_sim_sms_gateway.Queue.Run.{begin_stop, end_stop, Event, advance, run}
use indian_sim_sms_gateway.Health.Watch
use indian_sim_sms_gateway.Health.Watch.{Watch}
use indian_sim_sms_gateway.HttpClient.{Connections, uses, use_all}
use indian_sim_sms_gateway.Telegram.Clients
use indian_sim_sms_gateway.CtoAgent.Clients as AgentClients

-- The components that a shutdown ends.
pub record Running : Type 0 where
  pub health_monitor : Watch
  pub message_queue : MessageQueue
  pub telegram : Connections
  pub cto_agent : Connections

-- `message_queue.stop`: what happens while it waits is given, with the sends that it makes.
unfoldable pub stop_queue : List Event → MessageQueue → MessageQueue
stop_queue waited q = let q' = (run waited (begin_stop q)).0 in (advance (end_stop q') q').0

-- The last argument but one is how many sends that is.
unfoldable pub shutdown : List Event → ℕ → Running → Running
unfolding stop_queue
shutdown waited sends r = record {
  health_monitor = Watch.stop r.health_monitor;
  message_queue = stop_queue waited r.message_queue;
  telegram = Clients.close (use_all Clients.client_config (replicate sends uses) r.telegram);
  cto_agent = AgentClients.close r.cto_agent;
}
