-- ===== src/DeadLetter/Encoded.antt =====
-- The letters as Redis stores them: every operation on the dict of letters is that on the dict of
-- their texts.
use indian_sim_sms_gateway.Prelude.{suc, ◌≡◌, refl, ap, some, List, [], ◌∷◌, arith, length}
use indian_sim_sms_gateway.Prelude.Text.{Text}
use indian_sim_sms_gateway.Prelude.Dict.{Dict, lookup, insert, erase, has_key}
use indian_sim_sms_gateway.Prelude.Json.{Json}
use indian_sim_sms_gateway.Prelude.Clock.{Time}
use indian_sim_sms_gateway.DeadLetter.Letter.{DeadLetter, to_json, from_json, from_json-to_json}
use indian_sim_sms_gateway.DeadLetter.Redis.{RedisClient}
use indian_sim_sms_gateway.DeadLetter.Office.{values, read_all}
use mathlib.Core.Option

unfoldable pub encoded : Dict DeadLetter → Dict Json
encoded [] = []
encoded ((k, l) ∷ d) = (k, to_json l) ∷ encoded d

pub lookup-encoded :
    (k : Text) (d : Dict DeadLetter) → lookup k (encoded d) ≡ Option.map to_json (lookup k d)
unfolding lookup encoded
lookup-encoded k [] = refl
lookup-encoded k ((j, l) ∷ d) = ground (arith, lookup-encoded k d)

pub insert-encoded :
    (k : Text) (l : DeadLetter) (d : Dict DeadLetter)
    → insert k (to_json l) (encoded d) ≡ encoded (insert k l d)
unfolding insert encoded
insert-encoded k l [] = refl
insert-encoded k l ((j, m) ∷ d) = ground (arith, insert-encoded k l d)

pub erase-encoded : (k : Text) (d : Dict DeadLetter) → erase k (encoded d) ≡ encoded (erase k d)
unfolding erase encoded
erase-encoded k [] = refl
erase-encoded k ((j, m) ∷ d) = ground (arith, erase-encoded k d)

pub has_key-encoded : (k : Text) (d : Dict DeadLetter) → has_key k (encoded d) ≡ has_key k d
unfolding lookup encoded
has_key-encoded k [] = refl
has_key-encoded k ((j, m) ∷ d) = ground (arith, has_key-encoded k d)

pub length-encoded : (d : Dict DeadLetter) → length (encoded d) ≡ length d
unfolding encoded
length-encoded [] = refl
length-encoded ((k, l) ∷ d) = ap suc (length-encoded d)

read_all-cons :
    (c : RedisClient) (now : Time) (k : Text) (v : Json) (l : DeadLetter) (d : Dict Json)
    (ls : List DeadLetter)
    → from_json now v ≡ some l
    → read_all c now d ≡ some ls
    → read_all c now ((k, v) ∷ d) ≡ some (l ∷ ls)
unfolding read_all
read_all-cons c now k v l d ls e f = rw (e, f, read_all) refl

pub read_all-encoded :
    (c : RedisClient) (now : Time) (d : Dict DeadLetter)
    → read_all c now (encoded d) ≡ some (values d)
unfolding read_all encoded
read_all-encoded c now [] = refl
read_all-encoded c now ((k, l) ∷ d) =
    read_all-cons c now k (to_json l) l (encoded d) (values d) (from_json-to_json now l)
      (read_all-encoded c now d)
