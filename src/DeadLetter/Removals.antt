-- ===== src/DeadLetter/Removals.antt =====
-- The removals, retries and purges over a Redis that answers, and in memory.
use indian_sim_sms_gateway.Prelude.{
  ℕ, ◌≡◌, refl, sym, subst, ◌∙◌, ap, Option, Bool, none, some, [], ◌∷◌, arith, length, Option-cases,
  Bool-cases, inl, inr, if◌then◌else◌,
}
use mathlib.Core.Option
use indian_sim_sms_gateway.Prelude.Int.{ℤ}
use indian_sim_sms_gateway.Prelude.Text.{Text}
use indian_sim_sms_gateway.Prelude.Dict.{
  Dict, lookup, erase, has_key, erase-absent, erase-insert_self, lookup-insert_self,
}
use indian_sim_sms_gateway.Prelude.Json.{Json}
use indian_sim_sms_gateway.Prelude.Clock.{Time}
use indian_sim_sms_gateway.DeadLetter.Letter.{DeadLetter, to_json, from_json-to_json}
use indian_sim_sms_gateway.DeadLetter.Redis.{RedisClient, IsHash, Outlasts}
use indian_sim_sms_gateway.DeadLetter.Office.{
  DeadLetterOffice, get, get_from, remove, remove_from, is_expired, keys_where, erase_all,
}
use indian_sim_sms_gateway.DeadLetter.Recovery.{
  retry, re_enqueue, purge_expired, purge_from, purge_entries, purge_all, purge_all_from, counted,
}
use indian_sim_sms_gateway.DeadLetter.Encoded.{
  encoded, lookup-encoded, erase-encoded, has_key-encoded, length-encoded,
}
use indian_sim_sms_gateway.DeadLetter.Unordered.{decoded, length-keys_where_perm, erase_all_perm}
use indian_sim_sms_gateway.DeadLetter.Backends.{
  IsUp, backed, IsTwin, takes_all, same-Outlasts, hdel-Outlasts,
}

module _ (c : RedisClient) (entries : RedisClient.Store c → Dict Json)
    (left : RedisClient.Store c → Option ℕ) (hash : IsHash c entries left) (up : IsUp c) (ttl : ℤ)
    (b : ℕ) where
  open c use {Store, hset, expire, hget, hgetall, hdel, hlen, delete}

  pub remove-IsTwin :
      (k : Text) (s : Store) (p : DeadLetterOffice c)
      → p.redis ≡ none
      → p.ttl_seconds ≡ ttl
      → entries s ≡ encoded p.in_memory
      → Outlasts b (left s)
      → ((remove c k (backed c s p)).0 ≡ (remove c k p).0)
        × IsTwin c entries left hash up ttl b (remove c k (backed c s p)).1 (remove c k p).1
  unfolding remove remove_from
  remove-IsTwin k s p none_p same_ttl e lasts =
      let (n, removed) = up.hdel_answers k s in
      let (count, erased) = hash.hdel_erases k s n removed in
      let stays = hdel-Outlasts c entries left hash b k s n removed lasts in
      let after = erased ∙ ap (erase k) e ∙ erase-encoded k p.in_memory in
      let counted : n ≡ (if has_key k p.in_memory then 1 else 0) =
        count
        ∙ ap (λ (d : Dict Json). if has_key k d then 1 else 0) e
        ∙ ap (λ (b : Bool). if b then 1 else 0) (has_key-encoded k p.in_memory) in
      elim (Bool-cases (has_key k p.in_memory)) [
        | inl here ↦
            let one : n ≡ 1 = counted ∙ ap (λ (b : Bool). if b then 1 else 0) here in
            rw (none_p, removed, one, here, remove_from)
              (refl, (refl, same_ttl, ((hdel k s).1, refl, after, stays)))
        | inr gone ↦
            let zero : n ≡ 0 = counted ∙ ap (λ (b : Bool). if b then 1 else 0) gone in
            rw (none_p, removed, zero, gone, remove_from)
              (
                refl,
                (
                  refl,
                  same_ttl,
                  ((hdel k s).1, refl, after ∙ ap encoded (erase-absent k p.in_memory gone), stays),
                ),
              )
      ]

  pub purge_all-IsTwin :
      (s : Store) (p : DeadLetterOffice c)
      → p.redis ≡ none
      → p.ttl_seconds ≡ ttl
      → entries s ≡ encoded p.in_memory
      → Outlasts b (left s)
      → ((purge_all c (backed c s p)).0 ≡ (purge_all c p).0)
        × IsTwin c entries left hash up ttl b (purge_all c (backed c s p)).1 (purge_all c p).1
  unfolding purge_all purge_all_from encoded
  purge_all-IsTwin s p none_p same_ttl e lasts =
      let (n, counted) = up.hlen_answers s in
      let s1 = (hlen s).1 in
      let (count, kept) = hash.hlen_counts s n counted in
      let size : n ≡ length p.in_memory = count ∙ ap length e ∙ length-encoded p.in_memory in
      let gone = up.delete_answers s1 in
      let (cleared, no_limit) = hash.delete_clears s1 gone in
      rw (none_p, counted, gone, size, purge_all_from)
        (
          refl,
          (refl, same_ttl, ((delete s1).1, refl, cleared, subst (Outlasts b) (sym no_limit) tt)),
        )

  purge_entries-IsTwin :
      (z : ℤ) (now : Time) (d m : Dict DeadLetter) (s : Store)
      → entries s ≡ encoded m
      → Outlasts b (left s)
      → let (purged, s') = purge_entries c z now (encoded d) s in
        let ids = keys_where (is_expired z now) d in
        (purged ≡ length ids) × (entries s' ≡ encoded (erase_all ids m)) × Outlasts b (left s')
  unfolding purge_entries encoded
  purge_entries-IsTwin z now [] m s e lasts = (refl, e, lasts)
  purge_entries-IsTwin z now ((k, l) ∷ d) m s e lasts = elim (Bool-cases (is_expired z now l)) [
    | inl old ↦
        let (n, removed) = up.hdel_answers k s in
        let stays = hdel-Outlasts c entries left hash b k s n removed lasts in
        let after = (hash.hdel_erases k s n removed).1 ∙ ap (erase k) e ∙ erase-encoded k m in
        let rest = purge_entries-IsTwin z now d (erase k m) (hdel k s).1 after stays in
        rw (from_json-to_json now l, old, removed, purge_entries)
          (omega (arith, rest.0), rest.1, rest.2)
    | inr young ↦
        let rest = purge_entries-IsTwin z now d m s e lasts in
        rw (from_json-to_json now l, young, purge_entries) rest
  ]

  pub purge_expired-IsTwin :
      (now : Time) (s : Store) (p : DeadLetterOffice c)
      → p.redis ≡ none
      → p.ttl_seconds ≡ ttl
      → entries s ≡ encoded p.in_memory
      → Outlasts b (left s)
      → ((purge_expired c now (backed c s p)).0 ≡ (purge_expired c now p).0)
        × IsTwin c entries left hash up ttl b
            (purge_expired c now (backed c s p)).1
            (purge_expired c now p).1
  unfolding purge_expired purge_from
  purge_expired-IsTwin now s p none_p same_ttl e lasts =
      let (d, got) = up.hgetall_answers s in
      let (read, kept) = hash.hgetall_reads s d got in
      let s1 = (hgetall s).1 in
      let (d', letters, order) = decoded read p.in_memory e in
      let test = is_expired p.ttl_seconds now in
      let (count, purged, stays) =
        purge_entries-IsTwin p.ttl_seconds now d' p.in_memory s1 (kept ∙ e)
          (same-Outlasts c entries left hash b s s1 (hash.hgetall_left s d got) lasts) in
      rw (none_p, got, letters, count, length-keys_where_perm test order, purge_from)
        (
          refl,
          (
            refl,
            same_ttl,
            (
              (purge_entries c p.ttl_seconds now (encoded d') s1).1,
              refl,
              purged ∙ ap encoded (erase_all_perm test order p.in_memory),
              stays,
            ),
          ),
        )

  pub retry-IsTwin :
      (k : Text) (now : Time) (s : Store) (p : DeadLetterOffice c)
      → p.redis ≡ none
      → p.ttl_seconds ≡ ttl
      → entries s ≡ encoded p.in_memory
      → Outlasts b (left s)
      → let (done, o', _) = retry c k now takes_all (backed c s p) tt in
        let (done', p', _) = retry c k now takes_all p tt in
        (done ≡ done') × IsTwin c entries left hash up ttl b o' p'
  unfolding retry re_enqueue get get_from remove remove_from lookup
  retry-IsTwin k now s p none_p same_ttl e lasts =
      let (v, got) = up.hget_answers k s in
      let (looked, kept) = hash.hget_looks_up k s v got in
      let s1 = (hget k s).1 in
      let stays = same-Outlasts c entries left hash b s s1 (hash.hget_left k s v got) lasts in
      let (n, removed) = up.hdel_answers k s1 in
      let what : v ≡ Option.map to_json (lookup k p.in_memory) =
        looked ∙ ap (lookup k) e ∙ lookup-encoded k p.in_memory in
      let after =
        (hash.hdel_erases k s1 n removed).1
        ∙ ap (erase k) (kept ∙ e)
        ∙ erase-encoded k p.in_memory in
      elim (Option-cases (lookup k p.in_memory)) [
        | inl absent ↦
            let nothing : v ≡ none = what ∙ ap (Option.map to_json) absent in
            rw (none_p, got, nothing, absent, get_from)
              (refl, (refl, same_ttl, (s1, refl, kept ∙ e, stays)))
        | inr (l, present) ↦
            let found : v ≡ some (to_json l) = what ∙ ap (Option.map to_json) present in
            let l' = counted l in
            rw
              (
                none_p,
                got,
                found,
                present,
                from_json-to_json now l,
                get_from,
                removed,
                lookup-insert_self k l' p.in_memory,
                erase-insert_self k l' p.in_memory,
                remove_from,
              )
              (
                refl,
                (
                  refl,
                  same_ttl,
                  (
                    (hdel k s1).1,
                    refl,
                    after,
                    hdel-Outlasts c entries left hash b k s1 n removed stays,
                  ),
                ),
              )
      ]
