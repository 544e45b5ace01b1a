-- ===== src/HttpClient/Laws.antt =====
-- How many clients a dispatcher keeps open.
use indian_sim_sms_gateway.Prelude.{
  ◌<◌, ◌≡◌, ◌⊎◌, inl, inr, refl, true, false, Bool-cases, Option, none, some, List, [], ◌∷◌, arith,
  Option-cases, ◌∙◌, ⊤,
}
use indian_sim_sms_gateway.HttpClient.{
  Config, Client, Connections, is_open, aclose, get_client, begin_close, end_close, Use, uses,
  begins_close, ends_close, use_client, use_all,
}

-- What is called: a send, or a whole `close` without a send between its halves.
pub data Call : Type 0 where
  sends closes : Call

abbrev pub steps_of : List Call → List Use
steps_of [] = []
steps_of (sends ∷ cs) = uses ∷ steps_of cs
steps_of (closes ∷ cs) = begins_close ∷ ends_close ∷ steps_of cs

-- The only client that is open is the one that is kept, and it is that client.
abbrev pub IsTidy : Connections → Type 0
IsTidy s =
    (s.closing ≡ false)
    × (((s.client ≡ none) × (s.opened ≡ []))
        ⊎ ((c : Client) × (s.client ≡ some c) × (s.opened ≡ c ∷ [])))

is_open_self : (c : Client) → is_open c (c ∷ []) ≡ true
unfolding is_open
is_open_self c = ground arith

aclose_self : (c : Client) → aclose c (c ∷ []) ≡ []
unfolding aclose
aclose_self c = ground arith

sends-IsTidy : (config : Config) (s : Connections) → IsTidy s → IsTidy (get_client config s)
unfolding get_client
sends-IsTidy config s (calm, inl (e, f)) =
    rw (e, f) (calm, inr (record { number = s.created; config = config }, refl, refl))
sends-IsTidy config s (calm, inr (c, e, f)) = rw (e, f, is_open_self c) (calm, inr (c, refl, refl))

closes-IsClosed :
    (s : Connections)
    → IsTidy s
    → let s' = end_close (begin_close s) in
      (s'.closing ≡ false) × (s'.client ≡ none) × (s'.opened ≡ [])
unfolding begin_close end_close
closes-IsClosed s (calm, inl (e, f)) = rw (e, calm) (refl, refl, f)
closes-IsClosed s (calm, inr (c, e, f)) =
    rw (e, f, is_open_self c, aclose_self c) (refl, refl, refl)

-- If no send comes between the halves of a `close`, a dispatcher never has more than one client
-- open, over any calls, and after a `close` it has none.
pub closes_all :
    (config : Config) (cs : List Call) (s : Connections)
    → IsTidy s
    → let s' = use_all config (steps_of cs) s in
      IsTidy s' × ((end_close (begin_close s')).opened ≡ [])
unfolding use_all use_client
closes_all config [] s tidy = (tidy, (closes-IsClosed s tidy).2)
closes_all config (sends ∷ cs) s tidy =
    closes_all config cs (get_client config s) (sends-IsTidy config s tidy)
closes_all config (closes ∷ cs) s tidy =
    let (calm, gone, empty) = closes-IsClosed s tidy in
    closes_all config cs (end_close (begin_close s)) (calm, inl (gone, empty))

abbrev IsNewer : Client → Option Client → Type 0
IsNewer d none = ⊤
IsNewer d (some c) = d.number < c.number

-- A client d that is open, and older than the next one and than the one that is kept.
abbrev pub IsLeaked : Client → Connections → Type 0
IsLeaked d s = (is_open d s.opened ≡ true) × (d.number < s.created) × IsNewer d s.client

aclose-other :
    (c d : Client) (l : List Client) → d.number < c.number → is_open d (aclose c l) ≡ is_open d l
unfolding is_open aclose
aclose-other c d [] h = refl
aclose-other c d (x ∷ xs) h = ground (arith, aclose-other c d xs h)

newest_first : (c d : Client) (l : List Client) → is_open d l ≡ true → is_open d (c ∷ l) ≡ true
unfolding is_open
newest_first c d l h = ground (arith, h)

use_client-IsLeaked :
    (config : Config) (u : Use) (d : Client) (s : Connections)
    → IsLeaked d s
    → IsLeaked d (use_client config u s)
unfolding use_client get_client begin_close end_close
use_client-IsLeaked config uses d s (o, older, newer) =
    let fresh : Client = record { number = s.created; config = config } in
    let more = newest_first fresh d s.opened o in
    elim (Option-cases s.client) [
      | inl e ↦ rw e (more, omega (arith, older), older)
      | inr (c, e) ↦ elim (Bool-cases (is_open c s.opened)) [
        | inl f ↦ rw (e, f) (o, older, rw e at newer)
        | inr f ↦ rw (e, f) (more, omega (arith, older), older)
      ]
    ]
use_client-IsLeaked config begins_close d s (o, older, newer) = elim (Option-cases s.client) [
  | inl e ↦ rw e (o, older, tt)
  | inr (c, e) ↦
      let behind : d.number < c.number = rw e at newer in
      elim (Bool-cases (is_open c s.opened)) [
        | inl f ↦ rw (e, f) (aclose-other c d s.opened behind ∙ o, older, behind)
        | inr f ↦ rw (e, f) (o, older, behind)
      ]
]
use_client-IsLeaked config ends_close d s (o, older, newer) = elim (Bool-cases s.closing) [
  | inl e ↦ rw e (o, older, tt)
  | inr e ↦ rw e (o, older, newer)
]

use_all-IsLeaked :
    (config : Config) (us : List Use) (d : Client) (s : Connections)
    → IsLeaked d s
    → IsLeaked d (use_all config us s)
unfolding use_all
use_all-IsLeaked config [] d s h = h
use_all-IsLeaked config (u ∷ us) d s h =
    use_all-IsLeaked config us d (use_client config u s) (use_client-IsLeaked config u d s h)

closed-IsLeaked :
    (config : Config) (c : Client) (s : Connections)
    → s.client ≡ some c
    → s.opened ≡ c ∷ []
    → IsLeaked
        (record { number = s.created; config = config })
        (end_close (get_client config (begin_close s)))
unfolding get_client begin_close end_close is_open
closed-IsLeaked config c s e f = rw (e, f, is_open_self c, aclose_self c) (ground arith)

-- A send between the halves of a `close` leaks a client: the one that it creates stays open,
-- whatever is called later.
pub send_in_close-leaks :
    (config : Config) (us : List Use) (c : Client) (s : Connections)
    → s.client ≡ some c
    → s.opened ≡ c ∷ []
    → is_open
        (record { number = s.created; config = config })
        (use_all config (begins_close ∷ uses ∷ ends_close ∷ us) s).opened
      ≡ true
unfolding use_all use_client
send_in_close-leaks config us c s e f =
    let d : Client = record { number = s.created; config = config } in
    let s' = end_close (get_client config (begin_close s)) in
    (use_all-IsLeaked config us d s' (closed-IsLeaked config c s e f)).0
