-- ===== src/Email/Counting.antt =====
-- What a call of `send` counts as sent.
use indian_sim_sms_gateway.Prelude.{
  ℕ, zero, suc, ◌+◌, ◌≡◌, Bool, not, List, [], ◌∷◌, arith, Bool-cases, inl, inr, if◌then◌else◌,
}
use indian_sim_sms_gateway.Prelude.Int.{pos_part}
use indian_sim_sms_gateway.Email.{
  EmailDispatcher, Sending, after_sleeps, gap, send_loop, send, is_configured,
}

-- A call that began at d counts one message as sent if it returns True, and else none.
abbrev pub CountsSent : EmailDispatcher → Sending → Type 0
CountsSent d (r, slept, d') = d'.total_sent ≡ d.total_sent + (if r then 1 else 0)

after_sleeps-CountsSent :
    (ts : List ℕ) (d : EmailDispatcher) (s : Sending)
    → CountsSent d s
    → CountsSent d (after_sleeps ts s)
after_sleeps-CountsSent [] d s h = h
after_sleeps-CountsSent (t ∷ ts) d s h = after_sleeps-CountsSent ts d s h

send_loop-CountsSent :
    (world : ℕ → Bool) (left k : ℕ) (d : EmailDispatcher) → CountsSent d (send_loop world left k d)
unfolding send_loop
send_loop-CountsSent world zero k d = omega arith
send_loop-CountsSent world (suc left) k d =
    let d' = record d { total_errors = d.total_errors + 1 } in
    let failed =
      after_sleeps-CountsSent (gap d k) d (send_loop world left (k + 1) d')
        (send_loop-CountsSent world left (k + 1) d') in
    elim (Bool-cases (world k)) [ inl e ↦ rw e (omega arith) | inr e ↦ rw e failed ]

pub send-CountsSent :
    (installed : Bool) (world : ℕ → Bool) (d : EmailDispatcher)
    → CountsSent d (send installed world d)
unfolding send
send-CountsSent installed world d = elim (Bool-cases (not (is_configured d))) [
  | inl e ↦ rw e (omega arith)
  | inr e ↦ elim (Bool-cases (not installed)) [
    | inl f ↦ rw (e, f) (omega arith)
    | inr f ↦ rw (e, f) (send_loop-CountsSent world (pos_part d.max_retries) 0 d)
  ]
]
