-- ===== src/Benchmark/Percentiles.antt =====
-- The reported latencies of a benchmark are in order.
use indian_sim_sms_gateway.Prelude.{
  ℕ, ◌≤◌, ◌<◌, ◌≡◌, inl, inr, refl, leb, some, List, [], ◌∷◌, arith, length, All, Bool-cases, min,
  max,
}
use native.Mathlib.Nat.{mul-le-mul_left}
use indian_sim_sms_gateway.Prelude.Clock.{Time}
use indian_sim_sms_gateway.Benchmark.Result.{
  BenchmarkResult, place, p50, p95, p99, largest, smallest, max_of, min_of, max_latency,
  min_latency,
}
use indian_sim_sms_gateway.Benchmark.Rank.{
  below, up_to, IsNth, HasLatencies, nonempty, place-inside, nth-monotone, percentile-IsNth,
}

place-monotone : (n p p' : ℕ) → p ≤ p' → place n p ≤ place n p'
unfolding place
place-monotone n p p' h = omega (arith, mul-le-mul_left n h)

largest-bounds : (x : ℕ) (xs : List ℕ) → (x ≤ largest x xs) × All (λ y. y ≤ largest x xs) xs
unfolding largest
largest-bounds x [] = (omega arith, tt)
largest-bounds x (y ∷ ys) =
    let h = largest-bounds (max x y) ys in (omega (arith, h.0), (omega (arith, h.0), h.1))

smallest-bounds : (x : ℕ) (xs : List ℕ) → (smallest x xs ≤ x) × All (λ y. smallest x xs ≤ y) xs
unfolding smallest
smallest-bounds x [] = (omega arith, tt)
smallest-bounds x (y ∷ ys) =
    let h = smallest-bounds (min x y) ys in (omega (arith, h.0), (omega (arith, h.0), h.1))

below-bounded : (m v : Time) (xs : List Time) → All (λ y. y ≤ m) xs → m < v → below v xs ≡ length xs
below-bounded m v [] h lt = refl
below-bounded m v (x ∷ xs) h lt = ground (arith, h.0, below-bounded m v xs h.1 lt)

up_to-bounded : (m v : Time) (xs : List Time) → All (λ y. m ≤ y) xs → v < m → up_to v xs ≡ 0
up_to-bounded m v [] h lt = refl
up_to-bounded m v (x ∷ xs) h lt = ground (arith, h.0, up_to-bounded m v xs h.1 lt)

latencies-bounds : (xs : List Time) → All (λ y. y ≤ max_of xs) xs × All (λ y. min_of xs ≤ y) xs
latencies-bounds [] = (tt, tt)
latencies-bounds (x ∷ xs) = (largest-bounds x xs, smallest-bounds x xs)

nth-bounds :
    (xs : List Time) (i : ℕ) (v : Time)
    → i < length xs
    → IsNth i xs v
    → (min_of xs ≤ v) × (v ≤ max_of xs)
nth-bounds xs i v inside h =
    let b = latencies-bounds xs in
    (
      elim (Bool-cases (leb (min_of xs) v)) [
        | inl e ↦ ground arith
        | inr e ↦ absurd (omega (arith, h.1, up_to-bounded (min_of xs) v xs b.1 (ground arith)))
      ],
      elim (Bool-cases (leb v (max_of xs))) [
        | inl e ↦ ground arith
        | inr e ↦ absurd (omega (arith, h.0, below-bounded (max_of xs) v xs b.0 (ground arith)))
      ],
    )

-- Where something was measured, the reported latencies exist and are in order: the least one,
-- the percentiles 50, 95 and 99, the greatest one.
pub percentiles_ascend :
    (r : BenchmarkResult)
    → HasLatencies r
    → (a b c : Time) × (p50 r ≡ some a)
      × (p95 r ≡ some b)
      × (p99 r ≡ some c)
      × (min_latency r ≤ a)
      × (a ≤ b)
      × (b ≤ c)
      × (c ≤ max_latency r)
percentiles_ascend r has =
    let xs = r.latencies_ms in
    let n = length xs in
    let (a, ea, ha) = percentile-IsNth 50 r has in
    let (b, eb, hb) = percentile-IsNth 95 r has in
    let (c, ec, hc) = percentile-IsNth 99 r has in
    let some_n = nonempty xs has in
    (
      a,
      b,
      c,
      ea,
      eb,
      ec,
      (nth-bounds xs (place n 50) a (place-inside n 50 some_n) ha).0,
      nth-monotone xs (place n 50) (place n 95) a b (place-monotone n 50 95 (omega arith)) ha hb,
      nth-monotone xs (place n 95) (place n 99) b c (place-monotone n 95 99 (omega arith)) hb hc,
      (nth-bounds xs (place n 99) c (place-inside n 99 some_n) hc).1,
    )
