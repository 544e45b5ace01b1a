-- ===== src/Queue/Termination.antt =====
-- The workers' steps come to an end, and at the end no message is left.
use indian_sim_sms_gateway.Prelude.{
  ℕ, ◌+◌, ◌≤◌, ◌≡◌, ◌⊎◌, refl, true, false, Option, none, some, List, [], ◌∷◌, arith, get_elem?,
  inl, inr,
}
use indian_sim_sms_gateway.Message.{QueuedMessage}
use indian_sim_sms_gateway.Queue.State.{
  Phase, created, polling, exited, crashed, consuming, falling_back, backing_off, requeueing,
  capturing, MessageQueue, full,
}
use indian_sim_sms_gateway.Queue.Step.{returned, Step?, take_head, requeue, wake_up, on_captured}
use indian_sim_sms_gateway.Queue.Run.{
  Move, begins, takes, wakes, puts, answers, move, Event, worker, move_at, step, advance, run,
}
use indian_sim_sms_gateway.Queue.Spending.{works, energy, Spends, move-Spends}

move_at-Spends :
    (o : Option Phase) (mv : Move) (q : MessageQueue) (w : ℕ)
    → get_elem? q.workers w ≡ o
    → Spends mv q (move_at o mv q w)
move_at-Spends none mv q w here = tt
move_at-Spends (some p) mv q w here = move-Spends p mv q w here

-- The next move of one of the workers.
abbrev pub Turns : Type 0
Turns = List (ℕ × Move)

abbrev pub events : Turns → List Event
events [] = []
events ((w, mv) ∷ ts) = worker w mv ∷ events ts

-- The steps that are made: those that are possible, without the gets that time out.
abbrev made : Step? → Move → ℕ
made none mv = 0
made (some s) mv = works mv

pub worked : Turns → MessageQueue → ℕ
worked [] q = 0
worked ((w, mv) ∷ ts) q =
    made (step (worker w mv) q) mv + worked ts (advance (step (worker w mv) q) q).0

made-energy :
    (s : Step?) (mv : Move) (q : MessageQueue)
    → Spends mv q s
    → energy (advance s q).0 + made s mv ≤ energy q
made-energy none mv q h = omega arith
made-energy (some (q', fx)) mv q h = rw h.1 h.0

-- However the workers' moves are interleaved and whatever the callbacks answer, the workers of a
-- queue to which nothing is added make only so many steps: all their steps, without the gets that
-- time out, and the energy that is left at the end, are at most the energy at the start. With n
-- consumers a round of a message counts n + 5. An item in the queue counts for its rounds left,
-- which are its retries left, or one if there are none. A worker counts 1 if it has not begun or
-- awaits the Dead Letter Office, and 0 if it waits for an item or has ended; if it is in a round,
-- the rounds after this one and at most n + 4 for the rest of this one; and if it sleeps before it
-- puts its message back, or waits to put it back, what the message counts in the queue, and 2 or 1.
pub run-Ends :
    (ts : Turns) (q : MessageQueue) → worked ts q + energy (run (events ts) q).0 ≤ energy q
unfolding run step worked
run-Ends [] q = omega arith
run-Ends ((w, mv) ∷ ts) q =
    let s = move_at (get_elem? q.workers w) mv q w in
    omega (
      arith,
      made-energy s mv q (move_at-Spends (get_elem? q.workers w) mv q w refl),
      run-Ends ts (advance s q).0,
    )

-- No worker can make a step but let a get time out.
abbrev pub IsQuiet : MessageQueue → Type 0
IsQuiet q = (w : ℕ) (mv : Move) → works mv ≡ 1 → step (worker w mv) q ≡ none

-- The worker has no message.
abbrev pub IsIdle : Phase → Type 0
IsIdle p = (p ≡ polling) ⊎ ((p ≡ exited) ⊎ (p ≡ crashed))

quiet-phase :
    (q : MessageQueue) (w : ℕ) (p : Phase)
    → full q ≡ false
    → ((mv : Move) → works mv ≡ 1 → move p mv q w ≡ none)
    → IsIdle p
unfolding move wake_up requeue on_captured
quiet-phase q w created room h = absurd (ground (arith, h begins refl))
quiet-phase q w polling room h = inl refl
quiet-phase q w exited room h = inr (inl refl)
quiet-phase q w crashed room h = inr (inr refl)
quiet-phase q w (consuming m i) room h = absurd (ground (arith, h (answers (returned true)) refl))
quiet-phase q w (falling_back m) room h = absurd (ground (arith, h (answers (returned true)) refl))
quiet-phase q w (backing_off m s) room h = absurd (ground (arith, room, h wakes refl))
quiet-phase q w (requeueing m) room h = absurd (ground (arith, room, h puts refl))
quiet-phase q w (capturing m) room h = absurd (ground (arith, h (answers (returned true)) refl))

no_items :
    (q : MessageQueue) (w : ℕ) (items : List QueuedMessage)
    → take_head items q w ≡ none
    → items ≡ []
unfolding take_head
no_items q w [] h = refl
no_items q w (m ∷ rest) h = absurd (ground (arith, h))

-- When the workers can make no more such step, a queue that has room and a worker that polls holds no
-- message any more: it is empty, and every worker is idle.
pub quiet-IsIdle :
    (q : MessageQueue) (w : ℕ)
    → IsQuiet q
    → full q ≡ false
    → get_elem? q.workers w ≡ some polling
    → (q.items ≡ []) × ((v : ℕ) (p : Phase) → get_elem? q.workers v ≡ some p → IsIdle p)
unfolding step move
quiet-IsIdle q w quiet room here = (
  no_items q w q.items (rw here at (quiet w takes refl)),
  λ v p there. quiet-phase q v p room (λ mv e. rw there at (quiet v mv e)),
)
