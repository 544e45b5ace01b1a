-- ===== src/CtoAgent/History.antt =====
-- The agent's counters and its bounded history.
use indian_sim_sms_gateway.Prelude.{
  ℕ, suc, min, map, ◌+◌, ◌-◌, ◌≤◌, ◌≡◌, ◌∙◌, Bool, true, false, Option, none, some, List, [], ◌∷◌,
  ◌++◌, arith, is_some, is_empty, length, length-append, length-drop, length-map, drop, ap,
  if◌then◌else◌,
}
use indian_sim_sms_gateway.Prelude.Int.{ℤ, pos, negsuc}
use indian_sim_sms_gateway.CtoAgent.Incident.{Incident, to_dict}
use indian_sim_sms_gateway.CtoAgent.Agent.{
  CtoAgent, Library, Request, send_webhook, store_incident, process_alert, trigger_alert,
  get_incidents,
}
use indian_sim_sms_gateway.CtoAgent.Cooldown.{Alert, trigger}

abbrev one_if : Bool → ℕ
one_if true = 1
one_if false = 0

-- What storing an incident leaves, for a positive limit and for the limit 0.
pub stored :
    (i : Incident) (a : CtoAgent) (n : ℕ)
    → a.max_incidents ≡ pos (suc n)
    → (store_incident i a).incidents ≡ drop (length a.incidents - n) (a.incidents ++ (i ∷ []))
unfolding store_incident
stored i a n e = ground (arith, length-append a.incidents (i ∷ []))

stored_zero :
    (i : Incident) (a : CtoAgent)
    → a.max_incidents ≡ pos 0
    → (store_incident i a).incidents ≡ a.incidents ++ (i ∷ [])
unfolding store_incident
stored_zero i a e = ground arith

module _ (lib : Library) (post : Request → Option ℤ) where
  -- The agent after a series of alerts, and how many of them were processed.
  unfoldable pub after_all : List Alert → CtoAgent → CtoAgent × ℕ
  after_all [] a = (a, 0)
  after_all (x ∷ xs) a =
      let (r, a') = trigger lib post x a in
      let (a'', n) = after_all xs a' in (a'', one_if (is_some r) + n)

  -- What a series of n alerts, k of them processed, has done to the counters.
  pub record Tallies (a a' : CtoAgent) (n k : ℕ) : Type 0 where
    pub same_url : a'.webhook_url ≡ a.webhook_url
    pub alerts : a'.total_alerts ≡ a.total_alerts + n
    pub suppressed : a'.total_suppressed + k ≡ a.total_suppressed + n
    pub webhooks :
        a'.total_webhooks_sent + a'.total_webhook_errors
        ≡ a.total_webhooks_sent + a.total_webhook_errors + (if is_empty a.webhook_url then 0 else k)

  trigger-Tallies :
      (x : Alert) (a : CtoAgent)
      → Tallies a (trigger lib post x a).1 1 (one_if (is_some (trigger lib post x a).0))
  unfolding trigger_alert process_alert send_webhook store_incident
  trigger-Tallies x a = ground arith

  -- Over every series of alerts: each one is counted; each is processed or counted as suppressed;
  -- and if there is a webhook address, each processed one is counted as sent or as an error, else
  -- none is.
  pub after_all-Tallies :
      (xs : List Alert) (a : CtoAgent) → let (a', k) = after_all xs a in Tallies a a' (length xs) k
  unfolding after_all
  after_all-Tallies [] a = ground arith
  after_all-Tallies (x ∷ xs) a =
      ground (arith, trigger-Tallies x a, after_all-Tallies xs (trigger lib post x a).1)

module _ (lib : Library) (post : Request → Option ℤ) where
  -- What one alert does to the history: a processed one is stored.
  unfoldable pub Stores : CtoAgent → Option Incident × CtoAgent → Type 0
  Stores a (none, a') = (a'.incidents ≡ a.incidents) × (a'.max_incidents ≡ a.max_incidents)
  Stores a (some i, a') =
      (a'.incidents ≡ (store_incident i a).incidents) × (a'.max_incidents ≡ a.max_incidents)

  pub trigger-Stores : (x : Alert) (a : CtoAgent) → Stores a (trigger lib post x a)
  unfolding Stores trigger_alert process_alert send_webhook store_incident
  trigger-Stores x a = ground arith

  pub bounded_step :
      (a : CtoAgent) (n : ℕ) (s : Option Incident × CtoAgent)
      → Stores a s
      → a.max_incidents ≡ pos (suc n)
      → length a.incidents ≤ suc n
      → (s.1.max_incidents ≡ pos (suc n)) × (length s.1.incidents ≤ suc n)
  unfolding Stores
  bounded_step a n (none, a') st e h = (st.1 ∙ e, omega (arith, ap length st.0))
  bounded_step a n (some i, a') st e h = (
    st.1 ∙ e,
    omega (
      arith,
      ap length st.0,
      ap length (stored i a n e),
      length-drop (length a.incidents - n) (a.incidents ++ (i ∷ [])),
      length-append a.incidents (i ∷ []),
    ),
  )

  unbounded_step :
      (a : CtoAgent) (s : Option Incident × CtoAgent)
      → Stores a s
      → a.max_incidents ≡ pos 0
      → (s.1.max_incidents ≡ pos 0)
        × (length s.1.incidents ≡ length a.incidents + one_if (is_some s.0))
  unfolding Stores
  unbounded_step a (none, a') st e = (st.1 ∙ e, omega (arith, ap length st.0))
  unbounded_step a (some i, a') st e = (
    st.1 ∙ e,
    omega
        (arith, ap length st.0, ap length (stored_zero i a e), length-append a.incidents (i ∷ [])),
  )

  -- With the limit 0 the slice that should cut the history takes all of it: over every series
  -- of alerts the history becomes longer by the number of processed ones.
  pub after_all-unbounded :
      (xs : List Alert) (a : CtoAgent)
      → a.max_incidents ≡ pos 0
      → let (a', k) = after_all lib post xs a in length a'.incidents ≡ length a.incidents + k
  unfolding after_all
  after_all-unbounded [] a e = omega arith
  after_all-unbounded (x ∷ xs) a e =
      let t = trigger lib post x a in
      let (e', h') = unbounded_step a t (trigger-Stores x a) e in
      omega (arith, h', after_all-unbounded xs t.1 e')

-- The newest incidents, as a limit asks for them: a positive one that many, or all if there are
-- fewer; 0 all of them; and a negative one -n all but the n oldest.
pub get_incidents-slices :
    (n : ℕ) (a : CtoAgent)
    → (get_incidents (pos (suc n)) a ≡ map to_dict (drop (length a.incidents - suc n) a.incidents))
      × (length (get_incidents (pos (suc n)) a) ≡ min (suc n) (length a.incidents))
      × (get_incidents (pos 0) a ≡ map to_dict a.incidents)
      × (get_incidents (negsuc n) a ≡ map to_dict (drop (suc n) a.incidents))
unfolding get_incidents
get_incidents-slices n a = ground (
  arith,
  length-map to_dict (drop (length a.incidents - suc n) a.incidents),
  length-drop (length a.incidents - suc n) a.incidents,
)
