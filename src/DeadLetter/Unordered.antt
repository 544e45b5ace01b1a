-- ===== src/DeadLetter/Unordered.antt =====
-- What does not depend on the order in which Redis gives the letters.
use indian_sim_sms_gateway.Prelude.{◌≡◌, refl, ◌∙◌, ap, Bool, List, [], ◌∷◌, arith, length}
use mathlib.Core.Path.{ap₂}
use mathlib.Core.List.Permᴰ.{nil, cons, swap, trans}
use indian_sim_sms_gateway.Prelude.Sorting.{Reorders}
use indian_sim_sms_gateway.Prelude.Text.{Text}
use indian_sim_sms_gateway.Prelude.Dict.{Dict, erase}
use indian_sim_sms_gateway.Prelude.Json.{Json}
use indian_sim_sms_gateway.DeadLetter.Letter.{DeadLetter}
use indian_sim_sms_gateway.DeadLetter.Office.{keys_where, erase_all, values}
use indian_sim_sms_gateway.DeadLetter.Encoded.{encoded}

module _ {V : Type 0} where
  erase_comm : (j k : Text) (d : Dict V) → erase j (erase k d) ≡ erase k (erase j d)
  unfolding erase
  erase_comm j k [] = refl
  erase_comm j k ((i, v) ∷ d) = ground (arith, erase_comm j k d)

  pub values-Reorders : {d e : Dict V} → Reorders d e → Reorders (values d) (values e)
  values-Reorders nil = nil
  values-Reorders (cons same p) = cons (ap (λ x. x.1) same) (values-Reorders p)
  values-Reorders (swap f g) = swap (ap (λ x. x.1) f) (ap (λ x. x.1) g)
  values-Reorders (trans p q) = trans (values-Reorders p) (values-Reorders q)

  module _ (test : V → Bool) where
    pub length-keys_where_perm :
        {d e : Dict V} → Reorders d e → length (keys_where test d) ≡ length (keys_where test e)
    length-keys_where_perm nil = refl
    length-keys_where_perm (cons {a} same p) =
        rw (← same) (ground (arith, length-keys_where_perm p))
    length-keys_where_perm (swap {a} {b} f g) = rw (← f, ← g) (ground arith)
    length-keys_where_perm (trans p q) = length-keys_where_perm p ∙ length-keys_where_perm q

    pub erase_all_perm :
        {d e : Dict V}
        → Reorders d e
        → (x : Dict V) → erase_all (keys_where test d) x ≡ erase_all (keys_where test e) x
    erase_all_perm nil x = refl
    erase_all_perm (cons {a} same p) x =
        rw (← same) (ground (arith, erase_all_perm p x, erase_all_perm p (erase a.0 x)))
    erase_all_perm (swap {a} {b} {l = l} f g) x =
        rw (← f, ← g) (ground (arith, ap (erase_all (keys_where test l)) (erase_comm b.0 a.0 x)))
    erase_all_perm (trans p q) x = erase_all_perm p x ∙ erase_all_perm q x

abbrev tail : {A : Type 0} → List A → List A
tail [] = []
tail (x ∷ xs) = xs

abbrev head_or : {A : Type 0} → A → List A → A
head_or d [] = d
head_or d (x ∷ xs) = x

-- The letters in the order of their texts.
pub decoded :
    {d x : Dict Json}
    → Reorders d x
    → (m : Dict DeadLetter) → x ≡ encoded m
    → (d' : Dict DeadLetter) × (d ≡ encoded d') × Reorders d' m
unfolding encoded
decoded nil [] h = ([], refl, nil)
decoded nil ((k, l) ∷ m) h = cc
decoded (cons same p) [] h = cc
decoded (cons {a} {b} same p) ((k, l) ∷ m) h =
    let (d', e, r) = decoded p m (ap tail h) in
    ((k, l) ∷ d', ap₂ ◌∷◌ (same ∙ ap (head_or b) h) e, cons refl r)
decoded (swap f g) [] h = cc
decoded (swap f g) (e ∷ []) h = cc
decoded (swap {a} {b} f g) ((k, l) ∷ ((j, n) ∷ m)) h =
    let first = ap (head_or a) h in
    let second = ap (λ t. head_or a (tail t)) h in
    (
      (j, n) ∷ (k, l) ∷ m,
      ap₂ ◌∷◌ (f ∙ second) (ap₂ ◌∷◌ (g ∙ first) (ap (λ t. tail (tail t)) h)),
      swap refl refl,
    )
decoded (trans p q) m h =
    let (e', ee, r) = decoded q m h in let (d', ed, r') = decoded p e' ee in (d', ed, trans r' r)
