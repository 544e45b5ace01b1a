-- ===== src/Telegram/Sending.antt =====
-- What `send` does with the replies to its attempts.
use indian_sim_sms_gateway.Prelude.{
  ℕ, zero, suc, ◌+◌, ◌<◌, ◌≡◌, refl, ◌↔◌, ◌⊎◌, Bool, true, false, not, ◌&&◌, List, arith, is_empty,
  Bool-cases, inl, inr, subst, sym,
}
use indian_sim_sms_gateway.Prelude.Int.{pos, pos_part, eq_ℤ}
use indian_sim_sms_gateway.Telegram.Dispatcher.{
  TelegramDispatcher, unreadable, retry_after, Reply, answered, timeout, http_error, other_error,
  Attempt, returned, raised, Sleep, Sending, throttle, Verdict, ends, goes_on, on_reply, send_loop,
  send, settle,
}

-- An answer with status 200.
abbrev pub delivers : Reply → Bool
delivers (answered code body) = eq_ℤ code (pos 200)
delivers _ = false

-- A reply after which the next attempt is made: any other answer whose body can be read if it has
-- to be, a timeout, or an error of httpx.
abbrev pub passes : Reply → Bool
passes (answered code unreadable) = not (eq_ℤ code (pos 200)) && not (eq_ℤ code (pos 429))
passes (answered code (retry_after span)) = not (eq_ℤ code (pos 200))
passes timeout = true
passes http_error = true
passes other_error = false

-- Among the attempts from the k-th on, `left` of them, the i-th further one delivers and those
-- before it pass.
abbrev Delivered : (ℕ → Attempt) → ℕ → ℕ → Type 0
Delivered world left k =
    (i : ℕ) × (i < left)
    × (delivers (world (k + i)).reply ≡ true)
    × ((j : ℕ) → j < i → passes (world (k + j)).reply ≡ true)

-- The verdict on a reply, by the two tests.
data Judged (r : Reply) : Verdict → Type 0 where
  success : {d : TelegramDispatcher} → delivers r ≡ true → Judged r (ends (returned true) d)
  failure :
      {d : TelegramDispatcher} → delivers r ≡ false → passes r ≡ false → Judged r (ends raised d)
  again :
      {sleeps : List Sleep} {d : TelegramDispatcher}
      → delivers r ≡ false
      → passes r ≡ true
      → Judged r (goes_on sleeps d)

on_reply-Judged : (k : ℕ) (r : Reply) (d : TelegramDispatcher) → Judged r (on_reply k r d)
unfolding on_reply
on_reply-Judged k (answered code unreadable) d = elim (Bool-cases (eq_ℤ code (pos 200))) [
  | inl e ↦ rw e (success e)
  | inr e ↦ elim (Bool-cases (eq_ℤ code (pos 429))) [
    | inl f ↦ rw (e, f) (failure e (rw (e, f)))
    | inr f ↦ rw (e, f) (again e (rw (e, f)))
  ]
]
on_reply-Judged k (answered code (retry_after span)) d = elim (Bool-cases (eq_ℤ code (pos 200))) [
  | inl e ↦ rw e (success e)
  | inr e ↦ elim (Bool-cases (eq_ℤ code (pos 429))) [
    | inl f ↦ rw (e, f) (again e (rw e))
    | inr f ↦ rw (e, f) (again e (rw e))
  ]
]
on_reply-Judged k timeout d = again refl refl
on_reply-Judged k http_error d = again refl refl
on_reply-Judged k other_error d = failure refl refl

settle-returned :
    {P : Type 0} (r : Reply) (v : Verdict) (slept : List Sleep)
    (rest : TelegramDispatcher → Sending)
    → Judged r v
    → ((d : TelegramDispatcher) → ((rest d).0 ≡ returned true) ↔ P)
    → ((settle slept v rest).0 ≡ returned true)
      ↔ ((delivers r ≡ true) ⊎ ((delivers r ≡ false) × (passes r ≡ true) × P))
unfolding settle
settle-returned r (ends _ d) slept rest (success e) ih = (λ _. inl e, λ _. refl)
settle-returned r (ends _ d) slept rest (failure e f) ih =
    (λ h. cc, λ h. elim h [ inl g ↦ cc (sym e, g) | inr g ↦ cc (sym f, g.1) ])
settle-returned r (goes_on more d) slept rest (again e f) ih =
    (λ h. inr (e, f, (ih d).0 h), λ h. elim h [ inl g ↦ cc (sym e, g) | inr g ↦ (ih d).1 g.2 ])

passes-not_delivers : (r : Reply) → passes r ≡ true → delivers r ≡ false
passes-not_delivers (answered code unreadable) h = ground arith
passes-not_delivers (answered code (retry_after span)) h = ground arith
passes-not_delivers timeout h = refl
passes-not_delivers http_error h = refl
passes-not_delivers other_error h = cc

module _ (P : ℕ → Type 0) where
  shift : (k i : ℕ) → P (k + 1 + i) → P (k + suc i)
  shift k i = subst P (omega arith)

  unshift : (k i : ℕ) → P (k + suc i) → P (k + 1 + i)
  unshift k i = subst P (omega arith)

  first : (k : ℕ) → P k → P (k + 0)
  first k = subst P (omega arith)

  unfirst : (k : ℕ) → P (k + 0) → P k
  unfirst k = subst P (omega arith)

  before_suc : (k i : ℕ) → P k → ((j : ℕ) → j < i → P (k + 1 + j)) → (j : ℕ) → j < suc i → P (k + j)
  before_suc k i p rest zero lt = first k p
  before_suc k i p rest (suc j) lt = shift k j (rest j (omega arith))

Delivered-cons :
    (world : ℕ → Attempt) (left k : ℕ)
    → ((delivers (world k).reply ≡ true)
        ⊎ ((delivers (world k).reply ≡ false)
            × (passes (world k).reply ≡ true)
            × Delivered world left (k + 1)))
    → Delivered world (suc left) k
Delivered-cons world left k (inl e) =
    (0, omega arith, first (λ x. delivers (world x).reply ≡ true) k e, λ j lt. absurd (omega arith))
Delivered-cons world left k (inr (e, f, (i, lt, hit, ps))) = (
  suc i,
  omega arith,
  shift (λ x. delivers (world x).reply ≡ true) k i hit,
  before_suc (λ x. passes (world x).reply ≡ true) k i f ps,
)

Delivered-uncons :
    (world : ℕ → Attempt) (left k : ℕ)
    → Delivered world (suc left) k
    → (delivers (world k).reply ≡ true)
      ⊎ ((delivers (world k).reply ≡ false)
          × (passes (world k).reply ≡ true)
          × Delivered world left (k + 1))
Delivered-uncons world left k (zero, lt, hit, ps) =
    inl (unfirst (λ x. delivers (world x).reply ≡ true) k hit)
Delivered-uncons world left k (suc i, lt, hit, ps) =
    let here = unfirst (λ x. passes (world x).reply ≡ true) k (ps 0 (omega arith)) in
    inr (
      passes-not_delivers (world k).reply here,
      here,
      (
        i,
        omega arith,
        unshift (λ x. delivers (world x).reply ≡ true) k i hit,
        λ j below. unshift (λ x. passes (world x).reply ≡ true) k j (ps (suc j) (omega arith)),
      ),
    )

send_loop-returned :
    (world : ℕ → Attempt) (left k : ℕ) (d : TelegramDispatcher)
    → ((send_loop world left k d).0 ≡ returned true) ↔ Delivered world left k
unfolding send_loop
send_loop-returned world zero k d = (λ h. cc, λ h. absurd (omega (arith, h.1)))
send_loop-returned world (suc left) k d =
    let (slept, d') = throttle (world k) d in
    let r = (world k).reply in
    let both =
      settle-returned r (on_reply k r d') slept (send_loop world left (k + 1))
        (on_reply-Judged k r d') (λ d''. send_loop-returned world left (k + 1) d'') in
    (λ h. Delivered-cons world left k (both.0 h), λ h. both.1 (Delivered-uncons world left k h))

-- A configured dispatcher returns True exactly when one of its `max_retries` attempts is answered
-- with the status 200 and every attempt before it is rate limited with a readable answer, answered
-- with another status, timed out, or failed with an error of httpx.
pub send-delivers :
    (world : ℕ → Attempt) (d : TelegramDispatcher)
    → is_empty d.bot_token ≡ false
    → is_empty d.chat_id ≡ false
    → ((send world d).0 ≡ returned true) ↔ (
        (i : ℕ) × (i < pos_part d.max_retries)
        × (delivers (world (0 + i)).reply ≡ true)
        × ((j : ℕ) → j < i → passes (world (0 + j)).reply ≡ true))
unfolding send
send-delivers world d token chat =
    rw (token, chat) (send_loop-returned world (pos_part d.max_retries) 0 d)
