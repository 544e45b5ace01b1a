-- ===== src/Prelude/Clock.antt =====
-- Time. `time.time()` is a float number of seconds; it is counted in ticks here, so that the
-- quantities that the program computes (1/30 s, 1 ms) are whole numbers of them. Rounding of floats
-- is left out.
use Prim.Native.Nat.{ℕ, ◌*◌}
use indian_sim_sms_gateway.Prelude.Int.{ℤ, sub_ℕ, scale, trunc_div}

abbrev pub Time : Type 0
Time = ℕ

-- The ticks in a second.
abbrev pub second : ℕ
second = 3_000_000

abbrev pub seconds : ℕ → ℕ
seconds n = n * second

-- `now - then`, in ticks; negative when the clock went back.
abbrev pub elapsed : Time → Time → ℤ
elapsed now then = sub_ℕ now then

abbrev pub seconds_ℤ : ℤ → ℤ
seconds_ℤ n = scale n second

-- `int(span)`, in seconds.
abbrev pub whole_seconds : ℤ → ℤ
whole_seconds span = trunc_div span second
