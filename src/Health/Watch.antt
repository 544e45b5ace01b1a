-- ===== src/Health/Watch.antt =====
-- backend/health_monitor.py: the task of the check loop, which `start` creates and `stop` cancels, as
-- its steps between two awaits. What the callback does in its await is left to the callback.
use indian_sim_sms_gateway.Prelude.{
  ℕ, Bool, true, false, ◌&&◌, ◌||◌, Option, none, some, is_some, List, [], ◌∷◌, ◌++◌, length, set,
  get_elem?, if◌then◌else◌,
}
use indian_sim_sms_gateway.Prelude.Text.{Text, str, text_eq}
use indian_sim_sms_gateway.Prelude.Clock.{Time}
use indian_sim_sms_gateway.Health.Node.{status_value}
use indian_sim_sms_gateway.Health.Monitor.{HealthMonitor, evaluate}

-- A task of the loop: created and not begun, asleep after a round, in the await of the callback, or
-- over.
pub data Task : Type 0 where
  created sleeping alerting ended : Task

-- The monitor with the callback, by its name, every task that `start` created, and the place of the
-- one in self._check_task.
pub record Watch : Type 0 where
  pub monitor : HealthMonitor
  pub alert_callback : Option Text
  pub tasks : List Task
  pub check_task : Option ℕ

unfoldable pub watch_of : HealthMonitor → Watch
watch_of h = record { monitor = h; alert_callback = none; tasks = []; check_task = none }

unfoldable pub on_alert : Text → Watch → Watch
on_alert callback w = record w { alert_callback = some callback }

abbrev set_running : Bool → Watch → Watch
set_running b w = record w { monitor = record w.monitor { running = b } }

unfoldable pub start : Watch → Watch
start w = record (set_running true w) {
  tasks = w.tasks ++ (created ∷ []);
  check_task = some (length w.tasks);
}

-- The cancelled task leaves its loop, or never begins it, and `stop` awaits that.
unfoldable pub stop : Watch → Watch
stop w =
    let w' = set_running false w in
    elim w.check_task [ none ↦ w' | some i ↦ record w' { tasks = set w.tasks i ended } ]

-- What a round does.
pub data Effect : Type 0 where
  evaluated : Time → Effect
  alerted : Text → Effect

abbrev pub raises_alert : HealthMonitor → Bool
raises_alert h =
    text_eq (status_value h.status) (str "degraded")
    || text_eq (status_value h.status) (str "critical")

abbrev pub at_task : Watch → ℕ → Task → Watch
at_task w i t = record w { tasks = set w.tasks i t }

-- One round of `while self._running:`, up to its next await.
unfoldable pub check_round : Time → ℕ → Watch → Watch × List Effect
check_round now i w =
    let h = evaluate now w.monitor in
    let w' = record w { monitor = h } in
    if raises_alert h && is_some w.alert_callback
    then (at_task w' i alerting, evaluated now ∷ alerted (status_value h.status) ∷ [])
    else (at_task w' i sleeping, evaluated now ∷ [])

abbrev loop_test : Time → ℕ → Watch → Watch × List Effect
loop_test now i w = if w.monitor.running then check_round now i w else (at_task w i ended, [])

-- The task's await is over. The loop sleeps after the callback, also if that raised.
unfoldable pub resume : Option Task → Time → ℕ → Watch → Watch × List Effect
resume (some created) now i w = loop_test now i w
resume (some sleeping) now i w = loop_test now i w
resume (some alerting) now i w = (at_task w i sleeping, [])
resume _ now i w = (w, [])

-- Any task may go on at any time.
unfoldable pub resume_all : List (Time × ℕ) → Watch → Watch × List Effect
unfolding resume
resume_all [] w = (w, [])
resume_all ((now, i) ∷ rest) w =
    let (w', fx) = resume (get_elem? w.tasks i) now i w in
    let (w'', fx') = resume_all rest w' in (w'', fx ++ fx')
