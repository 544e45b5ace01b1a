-- ===== src/Benchmark/Rank.antt =====
-- A percentile of a benchmark against the counts of its latencies, which no order enters.
use indian_sim_sms_gateway.Prelude.{
  ℕ, zero, suc, ◌*◌, ◌⊎◌, ◌≤◌, ◌<◌, ◌≡◌, inl, inr, refl, sym, ◌∙◌, ap, true, false, leb, ltb, Bool,
  some, List, [], ◌∷◌, arith, length, is_empty, get_elem?, get_elem?-inside, total, All,
  if◌then◌else◌, Option-cases, Bool-cases,
}
use mathlib.Core.List.{Perm}
use native.Mathlib.Nat.{le_antisymm}
use indian_sim_sms_gateway.Prelude.Sorting.{
  sorted, IsSorted, total-sorted, length-sorted, sorted-IsSorted, total-perm, length-perm,
}
use indian_sim_sms_gateway.Prelude.Clock.{Time}
use indian_sim_sms_gateway.Benchmark.Result.{BenchmarkResult, place, percentile}

abbrev pub one_if : Bool → ℕ
one_if b = if b then 1 else 0

-- How many values are below v, and how many are not above it.
abbrev pub below : Time → List Time → ℕ
below v = total (λ x. one_if (ltb x v))

abbrev pub up_to : Time → List Time → ℕ
up_to v = total (λ x. one_if (leb x v))

-- The value that stands at the place i of a sorted list.
abbrev pub IsNth : ℕ → List Time → Time → Type 0
IsNth i xs v = (below v xs ≤ i) × (i < up_to v xs)

none_below : (v : Time) (xs : List Time) → All (λ y. leb v y ≡ true) xs → below v xs ≡ 0
none_below v [] h = refl
none_below v (x ∷ xs) h = ground (arith, none_below v xs h.1, h.0)

below-le-first :
    (v : Time) (xs : List Time) (i : ℕ)
    → get_elem? xs i ≡ some v
    → (x : Time) → All (λ y. leb x y ≡ true) xs
    → leb x v ≡ true
below-le-first v [] i e x h = ground arith
below-le-first v (y ∷ ys) zero e x h = ground (arith, e, h.0)
below-le-first v (y ∷ ys) (suc i) e x h = below-le-first v ys i e x h.1

sorted-IsNth :
    (xs : List Time) (i : ℕ) (v : Time) → IsSorted leb xs → get_elem? xs i ≡ some v → IsNth i xs v
sorted-IsNth [] i v s e = ground arith
sorted-IsNth (x ∷ xs) zero v s e = ground (arith, none_below x xs s.0)
sorted-IsNth (x ∷ xs) (suc i) v s e =
    ground (arith, sorted-IsNth xs i v s.1 e, below-le-first v xs i e x s.0)

leb_connex : (a b : ℕ) → leb a b ≡ false → leb b a ≡ true
leb_connex a b h = ground arith

leb_trans : (a b c : ℕ) → leb a b ≡ true → leb b c ≡ true → leb a c ≡ true
leb_trans a b c h k = ground arith

pub place-inside : (n p : ℕ) → 0 < n → place n p < n
unfolding place
place-inside n p h = omega arith

-- A benchmark that has measured something.
abbrev pub HasLatencies : BenchmarkResult → Type 0
HasLatencies r = is_empty r.latencies_ms ≡ false

length-empty : (xs : List Time) → is_empty xs ≡ true → length xs ≡ 0
length-empty [] h = refl
length-empty (x ∷ xs) h = ground arith

nonempty-of_length : (xs : List Time) → 0 < length xs → is_empty xs ≡ false
nonempty-of_length [] h = absurd (omega arith)
nonempty-of_length (x ∷ xs) h = refl

empty-of_length : (xs : List Time) → length xs ≡ 0 → is_empty xs ≡ true
empty-of_length [] h = refl
empty-of_length (x ∷ xs) h = absurd (omega (arith, h))

pub nonempty : (xs : List Time) → is_empty xs ≡ false → 0 < length xs
nonempty [] h = ground arith
nonempty (x ∷ xs) h = omega arith

pub percentile-IsNth :
    (p : ℕ) (r : BenchmarkResult)
    → HasLatencies r
    → let n = length r.latencies_ms in
      (v : Time) × (percentile p r ≡ some v) × IsNth (place n p) r.latencies_ms v
unfolding percentile
percentile-IsNth p r has =
    let xs = r.latencies_ms in
    let s = sorted leb xs in
    let i = place (length s) p in
    let inside = place-inside (length s) p (omega (arith, length-sorted leb xs, nonempty xs has)) in
    elim (Option-cases (get_elem? s i)) [
      | inl e ↦ absurd (ground (arith, get_elem?-inside s i inside, e))
      | inr (v, e) ↦
          let nth = sorted-IsNth s i v (sorted-IsSorted leb leb_connex leb_trans xs) e in
          let lows = total-sorted leb (λ x. one_if (ltb x v)) xs in
          let ups = total-sorted leb (λ x. one_if (leb x v)) xs in
          let same = length-sorted leb xs in
          (v, rw has e, omega (arith, nth, lows, ups, ap (λ n. place n p) same))
    ]

-- At most p percent of the values are below v; and more than p percent of them are not above it, or
-- else none is.
abbrev pub IsPercentile : ℕ → List Time → Time → Type 0
IsPercentile p xs v =
    (100 * below v xs ≤ length xs * p)
    × ((length xs * p < 100 * up_to v xs) ⊎ (length xs ≤ up_to v xs))

place-IsPercentile :
    (p : ℕ) (xs : List Time) (v : Time)
    → 0 < length xs
    → IsNth (place (length xs) p) xs v
    → IsPercentile p xs v
unfolding place
place-IsPercentile p xs v some_n nth = elim (Bool-cases (ltb (length xs * p) (100 * up_to v xs))) [
  | inl e ↦ (omega (arith, nth.0), inl (ground arith))
  | inr e ↦ (omega (arith, nth.0), inr (ground (arith, nth.1)))
]

-- Where something was measured, the p-th percentile exists, no index is out of range, and whatever
-- the order in which the latencies were measured: at most p percent of them are below it, and more
-- than p percent of them are not above it, or else it is not exceeded at all.
pub percentile-IsPercentile :
    (p : ℕ) (r : BenchmarkResult)
    → HasLatencies r
    → (v : Time) × (percentile p r ≡ some v) × IsPercentile p r.latencies_ms v
percentile-IsPercentile p r has =
    let xs = r.latencies_ms in
    let (v, found, nth) = percentile-IsNth p r has in
    (v, found, place-IsPercentile p xs v (nonempty xs has) nth)

-- One value is at a place that is no later.
pub nth-monotone :
    (xs : List Time) (i j : ℕ) (v w : Time) → i ≤ j → IsNth i xs v → IsNth j xs w → v ≤ w
nth-monotone xs i j v w h hv hw = elim (Bool-cases (leb v w)) [
  | inl e ↦ ground arith
  | inr e ↦ absurd (omega (arith, h, hv.0, hw.1, apart xs e))
]
  where
    apart : (l : List Time) → leb v w ≡ false → up_to w l ≤ below v l
    apart [] e = omega arith
    apart (x ∷ l) e = ground (arith, apart l e)

-- The order of the latencies does not matter.
pub percentile_unordered :
    (p : ℕ) (r s : BenchmarkResult)
    → Perm r.latencies_ms s.latencies_ms
    → percentile p r ≡ percentile p s
unfolding percentile
percentile_unordered p r s perm =
    let xs = r.latencies_ms in
    let ys = s.latencies_ms in
    let same = length-perm perm in
    elim (Bool-cases (is_empty xs)) [
      | inl e ↦ rw (e, empty-of_length ys (omega (arith, same, length-empty xs e))) refl
      | inr e ↦
          let (v, ev, hv) = percentile-IsNth p r e in
          let (w, ew, hw) =
            percentile-IsNth p s (nonempty-of_length ys (omega (arith, same, nonempty xs e))) in
          let lows = λ (u : Time). total-perm (λ x. one_if (ltb x u)) perm in
          let ups = λ (u : Time). total-perm (λ x. one_if (leb x u)) perm in
          let same_place = ap (λ n. place n p) same in
          let i = place (length xs) p in
          let j = place (length ys) p in
          let hw' : IsNth i xs w = omega (arith, hw, lows w, ups w, same_place) in
          let vw = nth-monotone xs i i v w (omega arith) hv hw' in
          let wv = nth-monotone xs i i w v (omega arith) hw' hv in
          ev ∙ ap some (le_antisymm vw wv) ∙ sym ew
    ]
