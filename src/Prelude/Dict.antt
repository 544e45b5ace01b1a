-- ===== src/Prelude/Dict.antt =====
-- Python's dict with text keys: an association list in the order of insertion.
use Prim.Native.Nat.{suc, ◌≤◌}
use mathlib.Core.Path.{◌≡◌, refl}
use mathlib.Core.Bool.{Bool, false}
use mathlib.Core.Option.{Option, none, some}
use mathlib.Core.List.{List, [], ◌∷◌}
use native.Mathlib.Omega.{arith}
use indian_sim_sms_gateway.Prelude.Tests.{if◌then◌else◌, is_some}
use indian_sim_sms_gateway.Prelude.Lists.{length}
use indian_sim_sms_gateway.Prelude.Text.{Text, text_eq, text_eq_iff, text_eq_refl}

abbrev pub Dict {ℓ} : Type ℓ → Type ℓ
Dict V = List (Text × V)

module _ {ℓ} {V : Type ℓ} where
  -- `d.get(k)`
  unfoldable pub lookup : Text → Dict V → Option V
  lookup k [] = none
  lookup k ((j, v) ∷ d) = if text_eq j k then some v else lookup k d

  -- `k in d`
  abbrev pub has_key : Text → Dict V → Bool
  has_key k d = is_some (lookup k d)

  -- `d[k] = v`: an old key keeps its place.
  unfoldable pub insert : Text → V → Dict V → Dict V
  insert k v [] = (k, v) ∷ []
  insert k v ((j, w) ∷ d) = if text_eq j k then (j, v) ∷ d else (j, w) ∷ insert k v d

  -- `del d[k]`: the entries under other keys stay, in their order.
  unfoldable pub erase : Text → Dict V → Dict V
  erase k [] = []
  erase k ((j, w) ∷ d) = let rest = erase k d in if text_eq j k then rest else (j, w) ∷ rest

  pub lookup-insert :
      (k j : Text) (v : V) (d : Dict V)
      → lookup j (insert k v d) ≡ (if text_eq k j then some v else lookup j d)
  unfolding lookup insert
  lookup-insert k j v [] = refl
  lookup-insert k j v ((i, w) ∷ d) =
      ground (arith, text_eq_iff k j, text_eq_iff i k, text_eq_iff i j, lookup-insert k j v d)

  pub lookup-erase :
      (k j : Text) (d : Dict V) → lookup j (erase k d) ≡ (if text_eq k j then none else lookup j d)
  unfolding lookup erase
  lookup-erase k j [] = ground arith
  lookup-erase k j ((i, w) ∷ d) =
      ground (arith, text_eq_iff k j, text_eq_iff i k, text_eq_iff i j, lookup-erase k j d)

  pub lookup-insert_self : (k : Text) (v : V) (d : Dict V) → lookup k (insert k v d) ≡ some v
  lookup-insert_self k v d = simp (lookup-insert, text_eq_refl)

  pub lookup-erase_self : (k : Text) (d : Dict V) → lookup k (erase k d) ≡ none
  lookup-erase_self k d = simp (lookup-erase, text_eq_refl)

  pub length-insert-le : (k : Text) (v : V) (d : Dict V) → length (insert k v d) ≤ suc (length d)
  unfolding insert
  length-insert-le k v [] = omega arith
  length-insert-le k v ((j, w) ∷ d) = ground (arith, length-insert-le k v d)

  -- A new value under a key makes no difference once the key is gone.
  pub erase-insert_self : (k : Text) (v : V) (d : Dict V) → erase k (insert k v d) ≡ erase k d
  unfolding erase insert
  erase-insert_self k v [] = rw (text_eq_refl k) refl
  erase-insert_self k v ((j, w) ∷ d) = ground (arith, erase-insert_self k v d)

  pub erase-absent : (k : Text) (d : Dict V) → has_key k d ≡ false → erase k d ≡ d
  unfolding erase lookup
  erase-absent k [] h = refl
  erase-absent k ((j, w) ∷ d) h = ground (arith, h, erase-absent k d)
