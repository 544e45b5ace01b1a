-- ===== src/Benchmark/Accounting.antt =====
-- What a live benchmark reports about its exchanges, whatever their order.
use mathlib.Core.List.{Perm, append_assoc, append-nil}
use mathlib.Core.List.Perm
use indian_sim_sms_gateway.Prelude.{
  ℕ, ◌+◌, ◌≡◌, refl, sym, ◌∙◌, ap, Bool, false, List, [], ◌∷◌, ◌++◌, map, arith, length, length-map,
  total, ◌==◌, if◌then◌else◌, Bool-cases, inl, inr,
}
use indian_sim_sms_gateway.Prelude.Int.{ℤ, pos_part}
use indian_sim_sms_gateway.Prelude.Text.{Text, text_eq, text_eq_iff}
use indian_sim_sms_gateway.Prelude.Dict.{Dict, lookup, insert, lookup-insert}
use indian_sim_sms_gateway.Prelude.Clock.{Time}
use indian_sim_sms_gateway.Prelude.Sorting.{total-perm}
use indian_sim_sms_gateway.Benchmark.Result.{
  BenchmarkResult, new_result, get_count, count_error, percentile,
}
use indian_sim_sms_gateway.Benchmark.Rank.{one_if, percentile_unordered}
use indian_sim_sms_gateway.Benchmark.Live.{
  Answer, status, exception, Exchange, http_error, settle, latency, send_one, send_all, run_live,
}

-- The errors that are counted, under every name.
abbrev pub all_errors : Dict ℕ → ℕ
all_errors = total (λ e. e.1)

all_errors-insert :
    (k : Text) (n : ℕ) (d : Dict ℕ) → all_errors (insert k n d) + get_count k d ≡ all_errors d + n
unfolding insert lookup
all_errors-insert k n [] = omega arith
all_errors-insert k n ((j, m) ∷ d) = ground (arith, all_errors-insert k n d)

pub all_errors-count_error :
    (k : Text) (d : Dict ℕ) → all_errors (count_error k d) ≡ 1 + all_errors d
unfolding count_error
all_errors-count_error k d = omega (arith, all_errors-insert k (get_count k d + 1) d)

pub get_count-count_error :
    (k j : Text) (d : Dict ℕ) → get_count j (count_error k d) ≡ one_if (text_eq k j) + get_count j d
unfolding count_error
get_count-count_error k j d =
    ground (arith, lookup-insert k j (get_count k d + 1) d, text_eq_iff k j)

-- An exchange is a success, or has the error that its name says.
abbrev pub is_ok : Answer → Bool
is_ok (status n) = n == 200
is_ok (exception e) = false

abbrev pub error_of : Answer → Text
error_of (status n) = http_error n
error_of (exception e) = e

abbrev pub ok : Answer → ℕ
ok a = one_if (is_ok a)

abbrev pub not_ok : Answer → ℕ
not_ok a = if is_ok a then 0 else 1

abbrev pub has_error : Text → Answer → ℕ
has_error e a = if is_ok a then 0 else one_if (text_eq (error_of a) e)

abbrev pub tally : (Answer → ℕ) → List Exchange → ℕ
tally f = total (λ x. f x.answer)

-- The state of a result in which these exchanges have ended after those of r.
pub record Accounts (xs : List Exchange) (r r' : BenchmarkResult) : Type 0 where
  pub successful : r'.successful ≡ r.successful + tally ok xs
  pub failed : r'.failed ≡ r.failed + tally not_ok xs
  pub latencies : r'.latencies_ms ≡ r.latencies_ms ++ map latency xs
  pub errors : all_errors r'.errors ≡ all_errors r.errors + tally not_ok xs
  pub each_error :
      (e : Text) → get_count e r'.errors ≡ get_count e r.errors + tally (has_error e) xs

abbrev Settles : Answer → BenchmarkResult → BenchmarkResult → Type 0
Settles a r r' =
    (r'.successful ≡ r.successful + ok a)
    × (r'.failed ≡ r.failed + not_ok a)
    × (r'.latencies_ms ≡ r.latencies_ms)
    × (all_errors r'.errors ≡ all_errors r.errors + not_ok a)
    × ((e : Text) → get_count e r'.errors ≡ get_count e r.errors + has_error e a)

settle-Settles : (a : Answer) (r : BenchmarkResult) → Settles a r (settle a r)
unfolding settle
settle-Settles (status n) r = elim (Bool-cases (n == 200)) [
  | inl e ↦ rw e (refl, omega arith, refl, omega arith, λ k. omega arith)
  | inr e ↦ rw e (
    omega arith,
    refl,
    refl,
    omega (arith, all_errors-count_error (http_error n) r.errors),
    λ k. omega (arith, get_count-count_error (http_error n) k r.errors),
  )
]
settle-Settles (exception t) r = (
  omega arith,
  refl,
  refl,
  omega (arith, all_errors-count_error t r.errors),
  λ k. omega (arith, get_count-count_error t k r.errors),
)

send_all-Accounts : (xs : List Exchange) (r : BenchmarkResult) → Accounts xs r (send_all xs r)
unfolding send_all send_one
send_all-Accounts [] r = record {
  successful = omega arith;
  failed = omega arith;
  latencies = sym (append-nil r.latencies_ms);
  errors = omega arith;
  each_error = λ e. omega arith;
}
send_all-Accounts (x ∷ xs) r =
    let r1 = record r { latencies_ms = r.latencies_ms ++ (latency x ∷ []) } in
    let s = settle-Settles x.answer r1 in
    let h = send_all-Accounts xs (settle x.answer r1) in
    record {
      successful = omega (arith, h.successful, s);
      failed = omega (arith, h.failed, s);
      latencies =
          h.latencies
          ∙ ap (λ l. l ++ map latency xs) s.2
          ∙ append_assoc r.latencies_ms (latency x ∷ []) (map latency xs);
      errors = omega (arith, h.errors, s);
      each_error = λ e. omega (arith, h.each_error e, s.4 e);
    }

ok-or_not : (xs : List Exchange) → tally ok xs + tally not_ok xs ≡ length xs
ok-or_not [] = refl
ok-or_not (x ∷ xs) = ground (arith, ok-or_not xs)

-- If the exchanges are those of `count` tasks, a live benchmark accounts for each of them: it
-- succeeded or failed, and its latency was noted; the errors that are counted are as many as what
-- failed; and each error name is counted as often as an exchange ended with it.
pub run_live_accounts :
    (count : ℤ) (started ended : Time) (xs : List Exchange)
    → length xs ≡ pos_part count
    → let r = run_live count started ended xs in
      (r.successful + r.failed ≡ pos_part count)
      × (length r.latencies_ms ≡ pos_part count)
      × (all_errors r.errors ≡ r.failed)
      × ((e : Text) → get_count e r.errors ≡ tally (has_error e) xs)
unfolding run_live lookup
run_live_accounts count started ended xs same =
    let h = send_all-Accounts xs (record (new_result count) { start_time = started }) in
    (
      omega (arith, h.successful, h.failed, ok-or_not xs, same),
      ap length h.latencies ∙ length-map latency xs ∙ same,
      omega (arith, h.errors, h.failed),
      λ e. omega (arith, h.each_error e),
    )

-- The order in which the exchanges end makes no difference to what a live benchmark reports: not to
-- the successes and failures, not to the count of an error, and not to a percentile.
pub run_live_unordered :
    (count : ℤ) (started ended : Time) (xs ys : List Exchange)
    → Perm xs ys
    → let r = run_live count started ended xs in
      let s = run_live count started ended ys in
      (r.successful ≡ s.successful)
      × (r.failed ≡ s.failed)
      × ((e : Text) → get_count e r.errors ≡ get_count e s.errors)
      × ((p : ℕ) → percentile p r ≡ percentile p s)
unfolding run_live
run_live_unordered count started ended xs ys perm =
    let start = record (new_result count) { start_time = started } in
    let h = send_all-Accounts xs start in
    let k = send_all-Accounts ys start in
    let same = λ (f : Answer → ℕ). total-perm (λ x. f x.answer) perm in
    (
      omega (arith, h.successful, k.successful, same ok),
      omega (arith, h.failed, k.failed, same not_ok),
      λ e. omega (arith, h.each_error e, k.each_error e, same (has_error e)),
      λ p.
          percentile_unordered p (run_live count started ended xs) (run_live count started ended ys)
            (rw (h.latencies, k.latencies) (Perm.map latency perm)),
    )
