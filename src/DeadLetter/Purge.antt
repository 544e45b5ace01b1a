-- ===== src/DeadLetter/Purge.antt =====
-- What `purge_expired` leaves in memory.
use indian_sim_sms_gateway.Prelude.{
  ◌+◌, ◌*◌, leb, ◌≡◌, refl, Bool, none, [], ◌∷◌, arith, length, select, not, ⊤,
}
use indian_sim_sms_gateway.Prelude.Int.{ℤ, pos, negsuc}
use indian_sim_sms_gateway.Prelude.Text.{Text, text_eq_iff, text_eq_refl}
use indian_sim_sms_gateway.Prelude.Dict.{Dict, lookup, insert, erase, lookup-insert}
use indian_sim_sms_gateway.Prelude.Clock.{Time}
use indian_sim_sms_gateway.DeadLetter.Letter.{DeadLetter}
use indian_sim_sms_gateway.DeadLetter.Redis.{RedisClient}
use indian_sim_sms_gateway.DeadLetter.Office.{DeadLetterOffice, is_expired, keys_where, erase_all}
use indian_sim_sms_gateway.DeadLetter.Recovery.{purge_expired}

-- No key stands twice, as in every dict.
abbrev pub HasDistinctKeys : {V : Type 0} → Dict V → Type 0
HasDistinctKeys [] = ⊤
HasDistinctKeys ((k, v) ∷ d) = (lookup k d ≡ none) × HasDistinctKeys d

module _ {V : Type 0} where
  pub insert-HasDistinctKeys :
      (k : Text) (v : V) (d : Dict V) → HasDistinctKeys d → HasDistinctKeys (insert k v d)
  unfolding insert lookup
  insert-HasDistinctKeys k v [] h = (refl, tt)
  insert-HasDistinctKeys k v ((j, w) ∷ d) h = ground (
    arith,
    insert-HasDistinctKeys k v d h.1,
    lookup-insert k j v d,
    text_eq_iff k j,
    text_eq_iff j k,
  )

module _ {V : Type 0} (p : V → Bool) where
  -- The entries that a test does not pick.
  abbrev pub entries_but : Dict V → Dict V
  entries_but = select (λ e. not (p e.1))

  erase_missing : (k : Text) (d : Dict V) → lookup k d ≡ none → erase k d ≡ d
  unfolding erase lookup
  erase_missing k [] h = refl
  erase_missing k ((j, w) ∷ d) h = ground (arith, erase_missing k d)

  -- Erasing the keys of other entries leaves an entry where it is.
  erase_all-cons :
      (d : Dict V) (k : Text) (v : V) (e : Dict V)
      → lookup k d ≡ none
      → erase_all (keys_where p d) ((k, v) ∷ e) ≡ (k, v) ∷ erase_all (keys_where p d) e
  unfolding lookup erase
  erase_all-cons [] k v e h = refl
  erase_all-cons ((j, w) ∷ d) k v e h = ground (
    arith,
    erase_all-cons d k v (erase j e),
    erase_all-cons d k v e,
    text_eq_iff j k,
    text_eq_iff k j,
  )

  erase_all-keys_where :
      (d : Dict V) → HasDistinctKeys d → erase_all (keys_where p d) d ≡ entries_but d
  unfolding lookup erase
  erase_all-keys_where [] h = refl
  erase_all-keys_where ((k, v) ∷ d) h = ground (
    arith,
    erase_all-keys_where d h.1,
    erase_all-cons d k v d h.0,
    erase_missing k d h.0,
    text_eq_refl k,
  )

  length-keys_where : (d : Dict V) → length (keys_where p d) + length (entries_but d) ≡ length d
  length-keys_where [] = refl
  length-keys_where ((k, v) ∷ d) = ground (arith, length-keys_where d)

-- A letter is in its time to live, a number of seconds of 3,000,000 ticks each, which may be negative.
abbrev pub is_alive : ℤ → Time → DeadLetter → Bool
is_alive (pos t) now l = leb now (l.dead_lettered_at + t * 3_000_000)
is_alive (negsuc t) now l = leb (now + (t + 1) * 3_000_000) l.dead_lettered_at

is_expired-not :
    (ttl : ℤ) (now : Time) (l : DeadLetter) → not (is_expired ttl now l) ≡ is_alive ttl now l
is_expired-not (pos t) now l = ground arith
is_expired-not (negsuc t) now l = ground arith

-- The letters that are in their time to live.
abbrev pub alive : ℤ → Time → Dict DeadLetter → Dict DeadLetter
alive ttl now = select (λ e. is_alive ttl now e.1)

entries_but-alive :
    (ttl : ℤ) (now : Time) (d : Dict DeadLetter)
    → entries_but (is_expired ttl now) d ≡ alive ttl now d
entries_but-alive ttl now [] = refl
entries_but-alive ttl now ((k, l) ∷ d) =
    simp (is_expired-not ttl now l, entries_but-alive ttl now d) refl

-- Without Redis, and with no key twice in memory, as in every dict: a purge leaves the letters
-- of which no more than `ttl_seconds` seconds have passed since they were filed, in their order,
-- and no others, and it returns, and adds to its count, the number of those that it removed.
pub purge_expired-keeps :
    (c : RedisClient) (o : DeadLetterOffice c) (now : Time)
    → o.redis ≡ none
    → HasDistinctKeys o.in_memory
    → let (purged, o') = purge_expired c now o in
      (o'.in_memory ≡ alive o.ttl_seconds now o.in_memory)
      × (purged + length o'.in_memory ≡ length o.in_memory)
      × (o'.total_purged ≡ o.total_purged + purged)
unfolding purge_expired
purge_expired-keeps c o now no_redis distinct =
    let p = is_expired o.ttl_seconds now in
    ground (
      arith,
      erase_all-keys_where p o.in_memory distinct,
      length-keys_where p o.in_memory,
      entries_but-alive o.ttl_seconds now o.in_memory,
    )
