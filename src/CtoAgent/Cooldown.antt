-- ===== src/CtoAgent/Cooldown.antt =====
-- The cooldown over a series of alerts.
use indian_sim_sms_gateway.Prelude.{
  ◌≡◌, false, not, ◌&&◌, Option, List, [], ◌∷◌, arith, is_some, ⊤, if◌then◌else◌,
}
use indian_sim_sms_gateway.Prelude.Int.{ℤ, ◌≤ℤ◌}
use indian_sim_sms_gateway.Prelude.Text.{Text, text_eq, text_eq_iff}
use indian_sim_sms_gateway.Prelude.Dict.{lookup-insert}
use indian_sim_sms_gateway.Prelude.Json.{Json}
use indian_sim_sms_gateway.Prelude.Clock.{Time, elapsed, seconds_ℤ}
use indian_sim_sms_gateway.CtoAgent.Incident.{Incident}
use indian_sim_sms_gateway.CtoAgent.Agent.{
  CtoAgent, Library, Request, last_alert, in_cooldown, send_webhook, store_incident, process_alert,
  trigger_alert,
}

-- A call of `trigger_alert`, with the times that it reads.
pub record Alert : Type 0 where
  pub alert_type : Text
  pub issues : List Text
  pub report : Json
  pub now : Time
  pub created : Time

module _ (lib : Library) (post : Request → Option ℤ) where
  abbrev pub trigger : Alert → CtoAgent → Option Incident × CtoAgent
  trigger x a = trigger_alert lib post x.alert_type x.issues x.report x.now x.created a

  -- The times of the alerts of a type that are not suppressed.
  pub fires : Text → List Alert → CtoAgent → List Time
  fires k [] a = []
  fires k (x ∷ xs) a =
      let (r, a') = trigger x a in
      let rest = fires k xs a' in if is_some r && text_eq x.alert_type k then x.now ∷ rest else rest

  -- What a call does to the cooldown: it is processed exactly when the cooldown is over, and then
  -- starts the cooldown of its own type.
  record Cools (x : Alert) (a : CtoAgent) (k : Text) : Type 0 where
    processed : is_some (trigger x a).0 ≡ not (in_cooldown a x.alert_type x.now)
    same_cooldown : (trigger x a).1.cooldown_seconds ≡ a.cooldown_seconds
    next_alert :
        last_alert (trigger x a).1 k
        ≡ (if is_some (trigger x a).0 && text_eq x.alert_type k then x.now else last_alert a k)

  trigger-Cools : (x : Alert) (a : CtoAgent) (k : Text) → Cools x a k
  unfolding trigger_alert process_alert send_webhook store_incident
  trigger-Cools x a k = ground (arith, lookup-insert x.alert_type k x.now a.last_alert_time)

  -- Each time is at least the cooldown after the one before it.
  abbrev pub Spaced : ℤ → Time → List Time → Type 0
  Spaced cooldown before [] = ⊤
  Spaced cooldown before (t ∷ ts) = (seconds_ℤ cooldown ≤ℤ elapsed t before) × Spaced cooldown t ts

  not_in_cooldown :
      (a : CtoAgent) (k : Text) (now : Time)
      → in_cooldown a k now ≡ false
      → seconds_ℤ a.cooldown_seconds ≤ℤ elapsed now (last_alert a k)
  not_in_cooldown a k now h = ground arith

  -- Over every series of alerts, whatever their times and types and whatever the webhook answers:
  -- two alerts of one type that are both processed are at least the cooldown apart, and the first
  -- is that much after the last one before the series (time 0, if there was none).
  pub fires-Spaced :
      (k : Text) (xs : List Alert) (a : CtoAgent)
      → Spaced a.cooldown_seconds (last_alert a k) (fires k xs a)
  unfolding fires
  fires-Spaced k [] a = tt
  fires-Spaced k (x ∷ xs) a = ground (
    arith,
    trigger-Cools x a k,
    fires-Spaced k xs (trigger x a).1,
    not_in_cooldown a k x.now,
    text_eq_iff x.alert_type k,
  )
