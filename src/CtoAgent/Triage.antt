-- ===== src/CtoAgent/Triage.antt =====
-- Which issues lead to which severity and action.
use indian_sim_sms_gateway.Prelude.{◌≡◌, true, false, List, [], ◌∷◌, ◌++◌}
use indian_sim_sms_gateway.Prelude.Text.{
  Text, str, lower, join, contains, contains-append, lower-append,
}
use indian_sim_sms_gateway.CtoAgent.Incident.{
  warning, critical, emergency, restart_network_switch, drain_message_queue,
}
use indian_sim_sms_gateway.CtoAgent.Agent.{
  issue_text, severity_of, evaluate_severity, action_of, determine_action,
}
use mathlib.Core.List.{append_assoc}

-- An issue that has the phrase in it.
abbrev pub Says : Text → Text → Type 0
Says phrase issue = (a : Text) × (b : Text) × (issue ≡ a ++ (phrase ++ b))

-- One of the issues does.
pub data SomeSays (phrase : Text) : List Text → Type 0 where
  here : {i : Text} {is : List Text} → Says phrase i → SomeSays phrase (i ∷ is)
  there : {i : Text} {is : List Text} → SomeSays phrase is → SomeSays phrase (i ∷ is)

append-Says : (phrase s t u : Text) → Says phrase t → Says phrase (s ++ (t ++ u))
append-Says phrase s t u (a, b, e) = (s ++ a, b ++ u, rw e (simp append_assoc))

join-Says : (phrase sep : Text) (is : List Text) → SomeSays phrase is → Says phrase (join sep is)
unfolding join
join-Says phrase sep [] h = elim h [ ]
join-Says phrase sep (i ∷ []) (here h) = h
join-Says phrase sep (i ∷ []) (there h) = elim h [ ]
join-Says phrase sep (i ∷ j ∷ is) (here h) = append-Says phrase [] i (sep ++ join sep (j ∷ is)) h
join-Says phrase sep (i ∷ j ∷ is) (there h) =
    let (a, b, e) = join-Says phrase sep (j ∷ is) h in
    (i ++ (sep ++ a), b, rw e (simp append_assoc))

-- The text that the agent searches has the phrase in lower case.
pub issue_text-contains :
    (phrase : Text) (is : List Text)
    → SomeSays phrase is
    → contains (lower phrase) (issue_text is) ≡ true
unfolding issue_text
issue_text-contains phrase is h =
    let (a, b, e) = join-Says phrase (str " ") is h in
    rw (e, lower-append, lower-append) (contains-append (lower a) (lower phrase) (lower b))

-- A heartbeat timeout among the issues, whatever the others and the alert's type: the severity is
-- critical, and the network switch is restarted.
pub heartbeat_first :
    (alert_type : Text) (is : List Text)
    → SomeSays (str "heartbeat timeout") is
    → (evaluate_severity alert_type is ≡ critical) × (determine_action is ≡ restart_network_switch)
unfolding evaluate_severity determine_action severity_of action_of lower
heartbeat_first alert_type is h =
    let e = issue_text-contains (str "heartbeat timeout") is h in (rw e, rw e)

Says-part : (a p b : Text) (i : Text) → Says (a ++ (p ++ b)) i → Says p i
Says-part a p b i (x, y, e) = (x ++ a, b ++ y, rw e (simp append_assoc))

SomeSays-part : (a p b : Text) (is : List Text) → SomeSays (a ++ (p ++ b)) is → SomeSays p is
SomeSays-part a p b (i ∷ is) (here h) = here (Says-part a p b i h)
SomeSays-part a p b (i ∷ is) (there h) = there (SomeSays-part a p b is h)
SomeSays-part a p b [] h = elim h [ ]

-- A queue near capacity and a low battery among the issues, and no heartbeat timeout: the queue is
-- drained, but the severity is only a warning, since the battery is tested first.
pub battery_masks_queue :
    (alert_type : Text) (is : List Text)
    → contains (str "heartbeat timeout") (issue_text is) ≡ false
    → SomeSays (str "battery low") is
    → SomeSays (str "Queue near capacity") is
    → (evaluate_severity alert_type is ≡ warning) × (determine_action is ≡ drain_message_queue)
unfolding evaluate_severity determine_action severity_of action_of lower
battery_masks_queue alert_type is alive battery queue =
    let b =
      issue_text-contains (str "battery") is
        (SomeSays-part [] (str "battery") (str " low") is battery) in
    let l =
      issue_text-contains (str "low") is
        (SomeSays-part (str "battery ") (str "low") [] is battery) in
    let q = issue_text-contains (str "Queue near capacity") is queue in
    (rw (alive, b, l), rw (alive, q))

-- A queue near capacity among the issues, with no heartbeat timeout and no word of a battery: an
-- emergency, and the queue is drained.
pub queue_emergency :
    (alert_type : Text) (is : List Text)
    → contains (str "heartbeat timeout") (issue_text is) ≡ false
    → contains (str "battery") (issue_text is) ≡ false
    → SomeSays (str "Queue near capacity") is
    → (evaluate_severity alert_type is ≡ emergency) × (determine_action is ≡ drain_message_queue)
unfolding evaluate_severity determine_action severity_of action_of lower
queue_emergency alert_type is alive no_battery queue =
    let q = issue_text-contains (str "Queue near capacity") is queue in
    (rw (alive, no_battery, q), rw (alive, q))
