-- ===== src/CtoAgent/Newest.antt =====
-- Which incidents the bounded history holds after a series of alerts.
use indian_sim_sms_gateway.Prelude.{
  ℕ, suc, ◌-◌, ◌≤◌, ◌≡◌, sym, ap, ◌∙◌, Option, none, some, List, [], ◌∷◌, ◌++◌, arith, length, drop,
  newest, newest-newest, length-append,
}
use indian_sim_sms_gateway.Prelude.Int.{ℤ, pos}
use indian_sim_sms_gateway.CtoAgent.Incident.{Incident}
use indian_sim_sms_gateway.CtoAgent.Agent.{CtoAgent, Library, Request}
use indian_sim_sms_gateway.CtoAgent.Cooldown.{Alert, trigger}
use indian_sim_sms_gateway.CtoAgent.History.{
  after_all, Stores, trigger-Stores, bounded_step, stored,
}
use mathlib.Core.List.{append-nil, append_assoc}

module _ (lib : Library) (post : Request → Option ℤ) where
  -- In front of the list if there is one.
  abbrev with_incident : Option Incident → List Incident → List Incident
  with_incident none is = is
  with_incident (some i) is = i ∷ is

  -- The incidents of the alerts that are processed, in order.
  unfoldable pub processed : List Alert → CtoAgent → List Incident
  processed [] a = []
  processed (x ∷ xs) a = let (r, a') = trigger lib post x a in with_incident r (processed xs a')

  stored_next :
      (a : CtoAgent) (n : ℕ) (s : Option Incident × CtoAgent) (later : List Incident)
      → Stores lib post a s
      → a.max_incidents ≡ pos (suc n)
      → newest (suc n) (s.1.incidents ++ later)
        ≡ newest (suc n) (a.incidents ++ with_incident s.0 later)
  unfolding Stores
  stored_next a n (none, a') later st e = ap (λ is. newest (suc n) (is ++ later)) st.0
  stored_next a n (some i, a') later st e =
      let all = a.incidents ++ (i ∷ []) in
      ap (λ is. newest (suc n) (is ++ later))
        (st.0
          ∙ stored i a n e
          ∙ ap (λ d. drop d all) (omega (arith, length-append a.incidents (i ∷ []))))
      ∙ newest-newest (suc n) all later
      ∙ ap (newest (suc n)) (append_assoc a.incidents (i ∷ []) later)

  all_kept : {A : Type 0} (k : ℕ) (xs : List A) → length xs ≤ k → newest k xs ≡ xs
  all_kept k xs h = let e : length xs - k ≡ 0 = omega arith in ap (λ d. drop d xs) e

  -- With a positive limit, over every series of alerts: a history within the limit becomes the
  -- newest incidents, as many as the limit allows, of those that were there and those of the alerts
  -- processed since, in their order.
  pub after_all-newest :
      (xs : List Alert) (a : CtoAgent) (n : ℕ)
      → a.max_incidents ≡ pos (suc n)
      → length a.incidents ≤ suc n
      → (after_all lib post xs a).0.incidents ≡ newest (suc n) (a.incidents ++ processed xs a)
  unfolding after_all processed
  after_all-newest [] a n e h =
      sym (ap (newest (suc n)) (append-nil a.incidents) ∙ all_kept (suc n) a.incidents h)
  after_all-newest (x ∷ xs) a n e h =
      let s = trigger lib post x a in
      let (e', h') = bounded_step lib post a n s (trigger-Stores lib post x a) e h in
      after_all-newest xs s.1 n e' h'
      ∙ stored_next a n s (processed xs s.1) (trigger-Stores lib post x a) e
