-- ===== src/Gateway/Service.antt =====
-- backend/main.py: the application at work, its requests in any order, with the steps of the queue's
-- workers between them.
use indian_sim_sms_gateway.Prelude.{ℕ, ◌+◌, Option, none, some, List, [], ◌∷◌, if◌then◌else◌}
use mathlib.Core.Option
use indian_sim_sms_gateway.Prelude.Int.{ℤ}
use indian_sim_sms_gateway.Prelude.Text.{Text}
use indian_sim_sms_gateway.Prelude.Json.{Json}
use indian_sim_sms_gateway.Prelude.Clock.{Time}
use indian_sim_sms_gateway.Queue.State.{MessageQueue}
use indian_sim_sms_gateway.Queue.Run.{Move, worker, step, advance}
use indian_sim_sms_gateway.DeadLetter.Redis.{RedisClient}
use indian_sim_sms_gateway.Gateway.Requests.{InboundSmsRequest, TelemetryRequest, Response, Gateway}
use indian_sim_sms_gateway.Gateway.Endpoints.{
  receive_sms, receive_telemetry, get_health, list_dead_letters, retry_dead_letter,
  purge_dead_letters, get_incidents,
}
use indian_sim_sms_gateway.Gateway.Recovering.{is_ok}
use indian_sim_sms_gateway.Gateway.Filing.{take_in}

-- A request, with the retry limit and the times that its handler reads.
pub data Request : Type 0 where
  sends_sms : InboundSmsRequest → ℤ → Text → Time → Time → Request
  sends_telemetry : TelemetryRequest → Time → Request
  asks_health : Time → Time → Request
  lists_letters : Time → Request
  retries_letter : Text → Time → Request
  purges_letters : Request
  lists_incidents : ℤ → Request

-- The requests that bring a message into the queue, if they are answered with success.
abbrev pub admitted : Request → Response → ℕ
admitted (sends_sms r max_retries stamp now created) a = if is_ok a then 1 else 0
admitted (retries_letter k now) a = if is_ok a then 1 else 0
admitted r a = 0

pub data Activity : Type 0 where
  requests : Request → Activity
  -- a worker's move, at a time
  works : ℕ → Move → Time → Activity

module _ (c : RedisClient) (percentage : ℕ → ℕ → Json) where
  unfoldable pub handle : Request → Gateway c → Response × Gateway c
  handle (sends_sms r max_retries stamp now created) g =
      receive_sms c r max_retries stamp now created g
  handle (sends_telemetry r now) g = receive_telemetry c r now g
  handle (asks_health now later) g = get_health c percentage now later g
  handle (lists_letters now) g = list_dead_letters c now g
  handle (retries_letter k now) g = retry_dead_letter c k now g
  handle purges_letters g = purge_dead_letters c g
  handle (lists_incidents limit) g = (get_incidents c limit g, g)

  -- What a worker hands over goes to the office.
  unfoldable pub work : Option MessageQueue → ℕ → Move → Time → Gateway c → Gateway c
  work none w mv now g = g
  work (some q) w mv now g =
      let (q', fx) = advance (step (worker w mv) q) q in
      record g { message_queue = some q'; dlo = Option.map (take_in c fx now) g.dlo }

  -- The gateway after all of it, and how many messages were admitted.
  unfoldable pub run_service : List Activity → Gateway c → ℕ × Gateway c
  unfolding handle work
  run_service [] g = (0, g)
  run_service (requests r ∷ acts) g =
      let (a, g') = handle r g in let (n, g'') = run_service acts g' in (admitted r a + n, g'')
  run_service (works w mv now ∷ acts) g = run_service acts (work g.message_queue w mv now g)
