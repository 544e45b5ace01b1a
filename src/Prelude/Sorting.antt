-- ===== src/Prelude/Sorting.antt =====
-- Python's `sorted`, which is stable: an item is put before the first one that must not precede it.
use Prim.Native.Nat.{ℕ, ◌+◌}
use mathlib.Core.Path.{◌≡◌, refl}
use mathlib.Core.Bool.{Bool, true, false}
use mathlib.Core.List.{List, [], ◌∷◌, foldr, Perm}
use mathlib.Core.List.Perm
use mathlib.Core.List.{Permᴰ}
use native.Mathlib.Nat.{ℕ_set}
use native.Mathlib.Omega.{arith}
use indian_sim_sms_gateway.Prelude.Tests.{if◌then◌else◌, Bool-cases, ⊤}
use mathlib.Core.Logic.{inl, inr}
use indian_sim_sms_gateway.Prelude.Lists.{length, total, All}

-- A sum does not depend on the order.
total-foldr {ℓ} : {A : Type ℓ} (f : A → ℕ) (xs : List A) → total f xs ≡ foldr (λ x n. f x + n) 0 xs
total-foldr f [] = refl
total-foldr f (x ∷ xs) = omega (arith, total-foldr f xs)

-- The same items in another order.
abbrev pub Reorders : {A : Type 0} → List A → List A → Type 0
Reorders xs ys = Permᴰ xs ys

pub total-perm {ℓ} :
    {A : Type ℓ} (f : A → ℕ) {xs ys : List A} → Perm xs ys → total f xs ≡ total f ys
total-perm {A} f {xs} {ys} p = omega (
  arith,
  total-foldr f xs,
  total-foldr f ys,
  Perm.foldr-eq ℕ_set (λ (x : A) (n : ℕ). f x + n) (λ a b x. omega arith) p 0,
)

total-one {ℓ} : {A : Type ℓ} (xs : List A) → total (λ x. 1) xs ≡ length xs
total-one [] = refl
total-one (x ∷ xs) = omega (arith, total-one xs)

pub length-perm {ℓ} : {A : Type ℓ} {xs ys : List A} → Perm xs ys → length xs ≡ length ys
length-perm {xs} {ys} p = omega (arith, total-perm (λ x. 1) p, total-one xs, total-one ys)

-- `not (key(y) < key(x))`, for the x that comes first.
module _ {ℓ} {A : Type ℓ} (before : A → A → Bool) where
  unfoldable pub insert_sorted : A → List A → List A
  insert_sorted x [] = x ∷ []
  insert_sorted x (y ∷ ys) =
      let rest = insert_sorted x ys in if before x y then x ∷ y ∷ ys else y ∷ rest

  unfoldable pub sorted : List A → List A
  unfolding insert_sorted
  sorted [] = []
  sorted (x ∷ xs) = insert_sorted x (sorted xs)

  pub total-insert_sorted :
      (f : A → ℕ) (x : A) (xs : List A) → total f (insert_sorted x xs) ≡ f x + total f xs
  unfolding insert_sorted
  total-insert_sorted f x [] = refl
  total-insert_sorted f x (y ∷ ys) = ground (arith, total-insert_sorted f x ys)

  pub total-sorted : (f : A → ℕ) (xs : List A) → total f (sorted xs) ≡ total f xs
  unfolding sorted
  total-sorted f [] = refl
  total-sorted f (x ∷ xs) = omega (arith, total-insert_sorted f x (sorted xs), total-sorted f xs)

  length-insert_sorted : (x : A) (xs : List A) → length (insert_sorted x xs) ≡ 1 + length xs
  unfolding insert_sorted
  length-insert_sorted x [] = refl
  length-insert_sorted x (y ∷ ys) = ground (arith, length-insert_sorted x ys)

  pub length-sorted : (xs : List A) → length (sorted xs) ≡ length xs
  unfolding sorted
  length-sorted [] = refl
  length-sorted (x ∷ xs) = omega (arith, length-insert_sorted x (sorted xs), length-sorted xs)

  -- Every item may stand before all the later ones.
  abbrev pub IsSorted : List A → Type 0
  IsSorted [] = ⊤
  IsSorted (x ∷ xs) = All (λ y. before x y ≡ true) xs × IsSorted xs

  All-insert_sorted {κ} :
      (P : A → Type κ) (x : A) (xs : List A) → P x → All P xs → All P (insert_sorted x xs)
  unfolding insert_sorted
  All-insert_sorted P x [] p h = (p, tt)
  All-insert_sorted P x (y ∷ ys) p h = elim (Bool-cases (before x y)) [
    | inl e ↦ rw e (p, h)
    | inr e ↦ rw e (h.0, All-insert_sorted P x ys p h.1)
  ]

  abbrev pub IsConnex : Type ℓ
  IsConnex = (a b : A) → before a b ≡ false → before b a ≡ true

  abbrev pub IsTransitive : Type ℓ
  IsTransitive = (a b c : A) → before a b ≡ true → before b c ≡ true → before a c ≡ true

  All-before :
      (trans : IsTransitive) (x y : A) (xs : List A)
      → before x y ≡ true
      → All (λ z. before y z ≡ true) xs
      → All (λ z. before x z ≡ true) xs
  All-before trans x y [] e h = tt
  All-before trans x y (z ∷ zs) e h = (trans x y z e h.0, All-before trans x y zs e h.1)

  module _ (connex : IsConnex) (trans : IsTransitive) where
    insert_sorted-IsSorted : (x : A) (xs : List A) → IsSorted xs → IsSorted (insert_sorted x xs)
    unfolding insert_sorted
    insert_sorted-IsSorted x [] s = (tt, tt)
    insert_sorted-IsSorted x (y ∷ ys) s = elim (Bool-cases (before x y)) [
      | inl e ↦ rw e ((e, All-before trans x y ys e s.0), s)
      | inr e ↦ rw e (
        All-insert_sorted (λ z. before y z ≡ true) x ys (connex x y e) s.0,
        insert_sorted-IsSorted x ys s.1,
      )
    ]

    pub sorted-IsSorted : (xs : List A) → IsSorted (sorted xs)
    unfolding sorted
    sorted-IsSorted [] = tt
    sorted-IsSorted (x ∷ xs) = insert_sorted-IsSorted x (sorted xs) (sorted-IsSorted xs)
