-- ===== src/Queue/Rounds.antt =====
-- One round of a message: the consumers in turn, then the fallback.
use indian_sim_sms_gateway.Prelude.{
  ℕ, zero, suc, ◌+◌, ◌≡◌, refl, ap, ◌∙◌, Bool, true, false, ◌||◌, some, [], ◌∷◌, arith, length,
  get_elem?, get_elem?-set, is_some, Bool-cases, inl, inr, if◌then◌else◌,
}
use indian_sim_sms_gateway.Message.{QueuedMessage}
use indian_sim_sms_gateway.Queue.State.{Phase, consuming, falling_back, MessageQueue}
use indian_sim_sms_gateway.Queue.Step.{
  Outcome, returned, raised, at_phase, finish, deliver, dead_letter, handle_failure, try_fallback,
  on_fallback,
}
use indian_sim_sms_gateway.Queue.Run.{worker, answers, move, step, run}
use indian_sim_sms_gateway.Queue.Dispatch.{
  succeeds, noted, answers_from, dispatched, run-dispatched, IsDone, deliver-IsDone,
}

module _ (w : ℕ) (answer : ℕ → Outcome) where
  -- Whether one of the consumers from the k-th on succeeds.
  abbrev pub some_succeeds : ℕ → ℕ → Bool
  some_succeeds k zero = false
  some_succeeds k (suc left) = succeeds (answer k) || some_succeeds (k + 1) left

  -- The state after the loop over the consumers.
  abbrev Concludes : Bool → MessageQueue → MessageQueue → Type 0
  Concludes true q q' = (q'.total_delivered ≡ q.total_delivered + 1) × IsDone w answer q'
  Concludes false q q' = (m : QueuedMessage) × (q' ≡ at_phase q w (falling_back m))

  deliver-total :
      (q : MessageQueue) (m : QueuedMessage)
      → (deliver q w m).0.total_delivered ≡ q.total_delivered + 1
  unfolding deliver finish
  deliver-total q m = ground arith

  handle_failure-total :
      (q : MessageQueue) (m : QueuedMessage)
      → (handle_failure q w m).0.total_delivered ≡ q.total_delivered
  unfolding handle_failure dead_letter finish
  handle_failure-total q m = ground arith

  dispatched-Concludes :
      (k left : ℕ) (q : MessageQueue) (p : Phase) (m : QueuedMessage)
      → get_elem? q.workers w ≡ some p
      → is_some q.fallback ≡ true
      → Concludes (some_succeeds k left) q (dispatched w answer k left q m).0
  unfolding dispatched try_fallback
  dispatched-Concludes k zero q p m here has = (m, rw has refl)
  dispatched-Concludes k (suc left) q p m here has = elim (Bool-cases (succeeds (answer k))) [
    | inl e ↦ rw e (deliver-total q m, deliver-IsDone w answer q p m here)
    | inr e ↦ rw e (dispatched-Concludes (k + 1) left q p (noted (answer k) m) here has)
  ]

  on_fallback-total :
      (q : MessageQueue) (m : QueuedMessage) (o : Outcome)
      → (on_fallback q w m o).0.total_delivered ≡ q.total_delivered + (if succeeds o then 1 else 0)
  unfolding on_fallback
  on_fallback-total q m (returned true) = deliver-total q m
  on_fallback-total q m (returned false) = omega (arith, handle_failure-total q m)
  on_fallback-total q m (raised e) =
      omega (arith, handle_failure-total q (record m { last_error = e }))

  last_answer :
      (b : Bool) (j : ℕ) (q q' : MessageQueue) (p : Phase)
      → get_elem? q.workers w ≡ some p
      → Concludes b q q'
      → (run (worker w (answers (answer j)) ∷ []) q').0.total_delivered
        ≡ q.total_delivered + (if b || succeeds (answer j) then 1 else 0)
  unfolding run step move on_fallback
  last_answer true j q q' p here c = rw (c.1 q' j) c.0
  last_answer false j q q' p here (m, e) =
      rw (e, get_elem?-set q.workers w p (falling_back m) here)
        (on_fallback-total (at_phase q w (falling_back m)) m (answer j))

  -- A round of a message whose worker awaits the first of n consumers, with a fallback registered
  -- and the answers 0 to n - 1 of the consumers and n of the fallback: the message counts as
  -- delivered, once, exactly if one of them returns True; one that raises does not end the round.
  pub round_delivers :
      (left : ℕ) (q : MessageQueue) (m : QueuedMessage)
      → get_elem? q.workers w ≡ some (consuming m 0)
      → suc left ≡ length q.consumers
      → is_some q.fallback ≡ true
      → let n = suc left in
        let q' = (run (answers_from w answer 0 n) q).0 in
        (run (worker w (answers (answer n)) ∷ []) q').0.total_delivered
        ≡ q.total_delivered + (if some_succeeds 0 n || succeeds (answer n) then 1 else 0)
  round_delivers left q m here count has =
      let n = suc left in
      ap (λ s. (run (worker w (answers (answer n)) ∷ []) s.0).0.total_delivered)
        (run-dispatched w answer left 0 q m here (omega (arith, count)))
      ∙ last_answer (some_succeeds 0 n) n q (dispatched w answer 0 n q m).0 (consuming m 0) here
          (dispatched-Concludes 0 n q (consuming m 0) m here has)
