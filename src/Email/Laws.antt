-- ===== src/Email/Laws.antt =====
-- What `send` does with the results of its attempts.
use indian_sim_sms_gateway.Prelude.{
  ℕ, zero, suc, ◌+◌, ◌*◌, ◌^◌, ◌≤◌, ◌<◌, ◌≡◌, refl, ◌↔◌, sym, ◌∙◌, ap, subst, Bool, true, false,
  List, [], ◌∷◌, arith, total, Bool-cases, inl, inr,
}
use indian_sim_sms_gateway.Prelude.Int.{pos, pos_part, neg_part}
use indian_sim_sms_gateway.Email.{
  EmailDispatcher, Sending, after_sleeps, gap, send_loop, send, is_configured,
}
use native.Mathlib.Numerals.{towards_suc}

abbrev identity : ℕ → ℕ
identity n = n

-- How long a call sleeps, in seconds.
abbrev pub time_slept : List ℕ → ℕ
time_slept = total identity

double : (k : ℕ) → 2 ^ (k + 1) ≡ 2 * 2 ^ k
double k = simp towards_suc (omega arith)

-- How long a call of n + 1 attempts sleeps: as long as all its backoffs if it fails, at most as
-- long if it succeeds.
abbrev pub Sleeps : ℕ → Sending → Type 0
Sleeps n (true, slept, d) = time_slept slept + 1 ≤ 2 ^ n
Sleeps n (false, slept, d) = time_slept slept + 1 ≡ 2 ^ n

abbrev SleepsFrom : ℕ → ℕ → Sending → Type 0
SleepsFrom k n (true, slept, d) = time_slept slept + 2 ^ k ≤ 2 ^ (k + n)
SleepsFrom k n (false, slept, d) = time_slept slept + 2 ^ k ≡ 2 ^ (k + n)

step_out : (k n : ℕ) → k + suc n ≡ (k + n) + 1
step_out k n = omega arith

step_in : (k n : ℕ) → (k + 1) + n ≡ k + suc n
step_in k n = omega arith

grows : (k n : ℕ) → 2 ^ k ≤ 2 ^ (k + n)
grows k zero = ground arith
grows k (suc n) = omega (arith, grows k n, double (k + n), ap (λ i. 2 ^ i) (step_out k n))

gap-inner :
    (d : EmailDispatcher) (k n : ℕ) → d.max_retries ≡ pos (k + suc (suc n)) → gap d k ≡ (2 ^ k) ∷ []
gap-inner d k n e = rw (ap pos_part e, ap neg_part e) (ground arith)

gap-last : (d : EmailDispatcher) (k : ℕ) → d.max_retries ≡ pos (k + 1) → gap d k ≡ []
gap-last d k e = rw (ap pos_part e, ap neg_part e) (ground arith)

later-SleepsFrom :
    (k n : ℕ) (s : Sending)
    → SleepsFrom (k + 1) n s
    → SleepsFrom k (suc n) (after_sleeps ((2 ^ k) ∷ []) s)
later-SleepsFrom k n (true, slept, d) h = omega (arith, h, double k, ap (λ i. 2 ^ i) (step_in k n))
later-SleepsFrom k n (false, slept, d) h = omega (arith, h, double k, ap (λ i. 2 ^ i) (step_in k n))

send_loop-SleepsFrom :
    (world : ℕ → Bool) (n k : ℕ) (d : EmailDispatcher)
    → d.max_retries ≡ pos (k + suc n)
    → SleepsFrom k n (send_loop world (suc n) k d)
unfolding send_loop
send_loop-SleepsFrom world zero k d e = rw (gap-last d k e) (ground arith)
send_loop-SleepsFrom world (suc n) k d e =
    let d' = record d { total_errors = d.total_errors + 1 } in
    let h = send_loop-SleepsFrom world n (k + 1) d' (e ∙ ap pos (omega arith)) in
    rw (gap-inner d k n e) (elim (Bool-cases (world k)) [
      | inl f ↦ rw f (omega (arith, grows k (suc n)))
      | inr f ↦ rw f (later-SleepsFrom k n (send_loop world (suc n) (k + 1) d') h)
    ])

zero_add : (n : ℕ) → 0 + n ≡ n
zero_add n = omega arith

of_SleepsFrom : (n : ℕ) (s : Sending) → SleepsFrom 0 n s → Sleeps n s
of_SleepsFrom n (true, slept, d) h = omega (arith, h, ap (λ i. 2 ^ i) (zero_add n))
of_SleepsFrom n (false, slept, d) h = omega (arith, h, ap (λ i. 2 ^ i) (zero_add n))

-- Whether some attempt of the call is let through.
abbrev Passes : (ℕ → Bool) → ℕ → ℕ → Type 0
Passes world left k = (i : ℕ) × (i < left) × (world (k + i) ≡ true)

after_sleeps-result : (ts : List ℕ) (s : Sending) → (after_sleeps ts s).0 ≡ s.0
after_sleeps-result [] s = refl
after_sleeps-result (t ∷ ts) s = after_sleeps-result ts s

later : (world : ℕ → Bool) (left k : ℕ) → Passes world left (k + 1) → Passes world (suc left) k
later world left k (i, lt, e) = (suc i, omega arith, subst (λ j. world j ≡ true) (omega arith) e)

first : (world : ℕ → Bool) (k : ℕ) → world (k + 0) ≡ true → world k ≡ true
first world k = subst (λ j. world j ≡ true) (omega arith)

sooner :
    (world : ℕ → Bool) (left k : ℕ)
    → world k ≡ false
    → Passes world (suc left) k
    → Passes world left (k + 1)
sooner world left k e (zero, lt, h) = absurd (cc (e, first world k h))
sooner world left k e (suc i, lt, h) = (i, omega arith, subst (λ j. world j ≡ true) (omega arith) h)

send_loop-sends :
    (world : ℕ → Bool) (left k : ℕ) (d : EmailDispatcher)
    → ((send_loop world left k d).0 ≡ true) ↔ Passes world left k
unfolding send_loop
send_loop-sends world zero k d = (λ h. cc, λ h. absurd (omega (arith, h.1)))
send_loop-sends world (suc left) k d =
    let d' = record d { total_errors = d.total_errors + 1 } in
    let ih = send_loop-sends world left (k + 1) d' in
    let same = after_sleeps-result (gap d k) (send_loop world left (k + 1) d') in
    elim (Bool-cases (world k)) [
      | inl e ↦
          rw e ((λ h. (0, omega arith, subst (λ i. world i ≡ true) (omega arith) e), λ h. refl))
      | inr e ↦ rw e (
          (
            λ h. later world left k (ih.0 (sym same ∙ h)),
            λ h. same ∙ ih.1 (sooner world left k e h),
          ))
    ]

-- A configured dispatcher whose library is installed returns True exactly if the SMTP call of one
-- of its `max_retries` attempts returns; one that is not configured or lacks the library returns
-- False.
pub send-sends :
    (installed : Bool) (world : ℕ → Bool) (d : EmailDispatcher)
    → ((send installed world d).0 ≡ true) ↔ (
        (is_configured d ≡ true)
        × (installed ≡ true)
        × ((i : ℕ) × (i < pos_part d.max_retries) × (world (0 + i) ≡ true)))
unfolding send
send-sends installed world d =
    let loop = send_loop-sends world (pos_part d.max_retries) 0 d in
    elim (Bool-cases (is_configured d)) [
      | inl e ↦ elim (Bool-cases installed) [
        | inl f ↦ rw (e, f) (λ h. (refl, refl, loop.0 h), λ h. loop.1 h.2)
        | inr f ↦ rw (e, f) (λ h. cc, λ h. cc (sym h.1))
      ]
      | inr e ↦ rw e (λ h. cc, λ h. cc (sym h.0))
    ]

-- With n + 1 attempts, a configured dispatcher whose library is installed sleeps 2 ^ n - 1 seconds
-- in all if it fails, and at most that if it succeeds: 3 seconds with the default of three.
pub send-Sleeps :
    (world : ℕ → Bool) (n : ℕ) (d : EmailDispatcher)
    → is_configured d ≡ true
    → d.max_retries ≡ pos (suc n)
    → Sleeps n (send true world d)
unfolding send
send-Sleeps world n d ok e =
    rw (ok, ap pos_part e)
      (of_SleepsFrom n (send_loop world (suc n) 0 d)
        (send_loop-SleepsFrom world n 0 d (e ∙ ap pos (omega arith))))
