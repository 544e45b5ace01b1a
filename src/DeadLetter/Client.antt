-- ===== src/DeadLetter/Client.antt =====
-- What the clients of an office can observe over any sequence of calls.
use indian_sim_sms_gateway.Prelude.{
  ℕ, ◌+◌, ◌-◌, ◌*◌, ◌<◌, ◌≡◌, refl, sym, subst, ◌∙◌, ap, Bool, Option, none, some, List, [], ◌∷◌, ⊤,
  arith,
}
use indian_sim_sms_gateway.Prelude.Sorting.{Reorders}
use mathlib.Core.Option
use indian_sim_sms_gateway.Prelude.Int.{ℤ, pos, pos_part, ◌<ℤ◌}
use indian_sim_sms_gateway.Prelude.Text.{Text}
use indian_sim_sms_gateway.Prelude.Dict.{Dict}
use indian_sim_sms_gateway.Prelude.Json.{Json}
use indian_sim_sms_gateway.Prelude.Clock.{Time, second}
use indian_sim_sms_gateway.Message.{QueuedMessage}
use indian_sim_sms_gateway.DeadLetter.Letter.{DeadLetter}
use indian_sim_sms_gateway.DeadLetter.Redis.{RedisClient, IsHash, Outlasts}
use indian_sim_sms_gateway.DeadLetter.Office.{DeadLetterOffice, capture, get, list_all, remove}
use indian_sim_sms_gateway.DeadLetter.Recovery.{retry, purge_expired, purge_all}
use indian_sim_sms_gateway.DeadLetter.Backends.{
  IsUp, backed, IsTwin, letter_in, takes_all, capture-IsTwin, get-IsTwin, list_all-IsTwin,
}
use indian_sim_sms_gateway.DeadLetter.Removals.{
  remove-IsTwin, retry-IsTwin, purge_expired-IsTwin, purge_all-IsTwin,
}

-- A call with the time that it reads; a retry is one whose message the queue takes. Between the calls
-- time goes by.
pub data Call : Type 0 where
  captures : QueuedMessage → Time → Call
  looks_up : Text → Time → Call
  lists : Time → Call
  removes : Text → Call
  retries : Text → Time → Call
  purges_expired : Time → Call
  purges_all : Call
  waits : ℕ → Call

pub data Answer : Type 0 where
  captured waited : Answer
  found : Option DeadLetter → Answer
  listed : List Json → Answer
  removed retried : Bool → Answer
  purged : ℕ → Answer

-- The same answer, but for the order of a list.
abbrev pub IsSame : Answer → Answer → Type 0
IsSame (listed js) (listed ks) = Reorders js ks
IsSame a b = a ≡ b

abbrev pub AllSame : List Answer → List Answer → Type 0
AllSame [] [] = ⊤
AllSame (a ∷ xs) (b ∷ ys) = IsSame a b × AllSame xs ys
AllSame _ _ = ⊥

module _ (c : RedisClient) where
  unfoldable pub answer : Call → DeadLetterOffice c → Answer × DeadLetterOffice c
  answer (captures m now) o = (captured, capture c m now o)
  answer (looks_up k now) o = let (l, o') = get c k now o in (found (letter_in c l), o')
  answer (lists now) o = let (js, o') = list_all c now o in (listed js, o')
  answer (removes k) o = let (b, o') = remove c k o in (removed b, o')
  answer (retries k now) o = let (b, o', _) = retry c k now takes_all o tt in (retried b, o')
  answer (purges_expired now) o = let (n, o') = purge_expired c now o in (purged n, o')
  answer purges_all o = let (n, o') = purge_all c o in (purged n, o')
  answer (waits n) o = (waited, record o { redis = Option.map (RedisClient.pass c n) o.redis })

  unfoldable pub run : List Call → DeadLetterOffice c → List Answer × DeadLetterOffice c
  unfolding answer
  run [] o = ([], o)
  run (call ∷ calls) o =
      let (a, o') = answer call o in let (rest, o'') = run calls o' in (a ∷ rest, o'')

-- For how long the hash stays after a call, if it stays for b ticks before, and a capture gives it
-- `full` ticks.
abbrev pub stays_after : ℕ → ℕ → Call → ℕ
stays_after full b (captures m now) = full
stays_after full b (waits n) = b - n
stays_after full b call = b

-- The hash stays through a call.
abbrev pub IsInTime : ℕ → Call → Type 0
IsInTime b (waits n) = n < b
IsInTime b call = ⊤

-- No wait is as long as the hash stays by then: the time to live is not over between two captures.
abbrev pub AllInTime : ℕ → ℕ → List Call → Type 0
AllInTime full b [] = ⊤
AllInTime full b (call ∷ calls) = IsInTime b call × AllInTime full (stays_after full b call) calls

module _ (c : RedisClient) (entries : RedisClient.Store c → Dict Json)
    (left : RedisClient.Store c → Option ℕ) (hash : IsHash c entries left) (up : IsUp c)
    (ttl : ℤ) where
  abbrev pub Twins : ℕ → DeadLetterOffice c → DeadLetterOffice c → Type 0
  Twins = IsTwin c entries left hash up ttl

  abbrev Agrees : ℕ → Answer × DeadLetterOffice c → Answer × DeadLetterOffice c → Type 0
  Agrees b (a, o) (a', p) = IsSame a a' × Twins b o p

  less-Outlasts : (b n : ℕ) (l : Option ℕ) → Outlasts b l → n < b → Outlasts (n + 1) l
  less-Outlasts b n none h lt = tt
  less-Outlasts b n (some r) h lt = omega arith

  passed-Outlasts :
      (b n : ℕ) (l : Option ℕ) → Outlasts b l → Outlasts (b - n) (Option.map (λ r. r - n) l)
  passed-Outlasts b n none h = tt
  passed-Outlasts b n (some r) h = omega arith

  waits-Agrees :
      (n b : ℕ) (o p : DeadLetterOffice c)
      → n < b
      → Twins b o p
      → Agrees (b - n) (answer c (waits n) o) (answer c (waits n) p)
  unfolding answer
  waits-Agrees n b o p lt (none_p, same_ttl, (s, same, e, lasts)) =
      let (kept, later) = hash.pass_keeps n s (less-Outlasts b n (left s) lasts lt) in
      let stays = subst (Outlasts (b - n)) (sym later) (passed-Outlasts b n (left s) lasts) in
      rw (same, none_p) (refl, (refl, same_ttl, (RedisClient.pass c n s, refl, kept ∙ e, stays)))

  module _ (positive : pos 0 <ℤ ttl) where
    abbrev pub full : ℕ
    full = pos_part ttl * second

    answer-IsTwin :
        (b : ℕ) (call : Call) (o p : DeadLetterOffice c)
        → IsInTime b call
        → Twins b o p
        → Agrees (stays_after full b call) (answer c call o) (answer c call p)
    unfolding answer
    answer-IsTwin b call o p h (none_p, same_ttl, (s, same, e, lasts)) = rw same (agree call h)
      where
        agree :
            (call : Call)
            → IsInTime b call
            → Agrees (stays_after full b call) (answer c call (backed c s p)) (answer c call p)
        agree (captures m now) h =
            (refl, capture-IsTwin c entries left hash up ttl m now s p positive none_p same_ttl e)
        agree (looks_up k now) h =
            let (a, t) =
              get-IsTwin c entries left hash up ttl b k now s p none_p same_ttl e lasts in
            (ap found a, t)
        agree (lists now) h =
            let (a, t) =
              list_all-IsTwin c entries left hash up ttl b now s p none_p same_ttl e lasts in
            (a, t)
        agree (removes k) h =
            let (a, t) = remove-IsTwin c entries left hash up ttl b k s p none_p same_ttl e lasts in
            (ap removed a, t)
        agree (retries k now) h =
            let (a, t) =
              retry-IsTwin c entries left hash up ttl b k now s p none_p same_ttl e lasts in
            (ap retried a, t)
        agree (purges_expired now) h =
            let (a, t) =
              purge_expired-IsTwin c entries left hash up ttl b now s p none_p same_ttl e lasts in
            (ap purged a, t)
        agree purges_all h =
            let (a, t) =
              purge_all-IsTwin c entries left hash up ttl b s p none_p same_ttl e lasts in
            (ap purged a, t)
        agree (waits n) h =
            waits-Agrees n b (backed c s p) p h (none_p, same_ttl, (s, refl, e, lasts))

    -- Within the time to live the two backends cannot be told apart. Take an office over a Redis
    -- whose calls all answer and do what Redis documents, with a positive time to live, and one in
    -- memory, with the same letters, and let the hash have b ticks left, if its time is limited: over
    -- any sequence of calls, captures, lookups, listings, removals, retries that the queue takes,
    -- and purges, with waits between them in which the time to live of the hash, which each
    -- capture renews, is not over, they give the same answers, a list of letters up to its order,
    -- which Redis leaves open, and they end with the same letters and the same counts.
    pub run-refines :
        (calls : List Call) (b : ℕ) (o p : DeadLetterOffice c)
        → AllInTime full b calls
        → Twins b o p
        → AllSame (run c calls o).0 (run c calls p).0
          × ((b' : ℕ) × Twins b' (run c calls o).1 (run c calls p).1)
    unfolding run
    run-refines [] b o p h t = (tt, (b, t))
    run-refines (call ∷ calls) b o p h t =
        let (a, t') = answer-IsTwin b call o p h.0 t in
        let b' = stays_after full b call in
        let (rest, last) = run-refines calls b' (answer c call o).1 (answer c call p).1 h.1 t' in
        ((a, rest), last)
