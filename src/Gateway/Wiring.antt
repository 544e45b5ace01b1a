-- ===== src/Gateway/Wiring.antt =====
-- backend/main.py: the queue's steps with the callbacks that the lifespan registers. A worker's
-- consumer is the Telegram dispatcher's `send`, its fallback the email dispatcher's. A call is made
-- at the event at which its await ends, with what the outside answers to it.
use indian_sim_sms_gateway.Prelude.{ℕ, Bool, Option, some, List, [], ◌∷◌, get_elem?}
use indian_sim_sms_gateway.Prelude.Text.{Text}
use indian_sim_sms_gateway.Queue.State.{Phase, consuming, falling_back, MessageQueue}
use indian_sim_sms_gateway.Queue.Step.{Outcome, returned, raised}
use indian_sim_sms_gateway.Queue.Run.{Move, answers, Event, worker, step, advance}
use indian_sim_sms_gateway.Telegram.Dispatcher
use indian_sim_sms_gateway.Telegram.Dispatcher.{TelegramDispatcher, Attempt, Sent}
use indian_sim_sms_gateway.Email
use indian_sim_sms_gateway.Email.{EmailDispatcher}

pub record Dispatchers : Type 0 where
  pub telegram : TelegramDispatcher
  pub email : EmailDispatcher

-- What the outside does with the attempts of a call; the fault is the text of an exception.
pub record World : Type 0 where
  pub attempts : ℕ → Attempt
  pub fault : Text
  pub installed : Bool
  pub smtp : ℕ → Bool

abbrev pub outcome_of : Text → Sent → Outcome
outcome_of fault (Dispatcher.returned b) = returned b
outcome_of fault Dispatcher.raised = raised fault

-- The answer to a worker that awaits a consumer or the fallback.
unfoldable pub consult : Option Phase → World → Move → Dispatchers → Move × Dispatchers
consult (some (consuming m i)) x (answers o) d =
    let (sent, _, t) = Dispatcher.send x.attempts d.telegram in
    (answers (outcome_of x.fault sent), record d { telegram = t })
consult (some (falling_back m)) x (answers o) d =
    let (sent, _, e) = Email.send x.installed x.smtp d.email in
    (answers (returned sent), record d { email = e })
consult p x mv d = (mv, d)

unfoldable pub resolve : Event → World → MessageQueue → Dispatchers → Event × Dispatchers
resolve (worker w mv) x q d =
    let (mv', d') = consult (get_elem? q.workers w) x mv d in (worker w mv', d')
resolve e x q d = (e, d)

unfoldable pub run_wired :
    List (Event × World) → MessageQueue → Dispatchers → MessageQueue × Dispatchers
run_wired [] q d = (q, d)
run_wired ((e, x) ∷ es) q d =
    let (e', d') = resolve e x q d in run_wired es (advance (step e' q) q).0 d'
