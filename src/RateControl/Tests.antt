-- ===== src/RateControl/Tests.antt =====
-- Rate control on whole numbers: a `Double` whose numbers are natural numbers.
use native.Mathlib.Nat.{div-le_self}
use streamers.Common.{
  ℕ, zero, suc, ◌+◌, ◌-◌, ◌*◌, ◌/◌, ◌≤◌, ◌≡◌, refl, true, false, some, List, [], ◌∷◌, arith, ltb, ℤ,
  pos, negsuc,
}
use streamers.Timer.{Timeval, tv2int}
use streamers.Transaction.{not_found, found}
use streamers.RateControl.{Double, RateConfig, Rate, RateCall, accept, ack, rate_all}
use streamers.RateControl.Bounds.{IsOrdered, IsMonotone, IsSound, rate_all-IsSound}

abbrev of_int : ℤ → ℕ
of_int (pos n) = n
of_int (negsuc n) = 0

abbrev pub whole : Double
whole = record {
  D = ℕ;
  of_int = of_int;
  to_int = λ n. n;
  lt = ltb;
  add = λ a b. a + b;
  sub = λ a b. a - b;
  mul = λ a b. a * b;
  div = λ a b. a / b;
  log = λ n. n;
  fabs = λ n. n;
}

div_le : (n m d : ℕ) → ltb d 1 ≡ false → n ≤ m → ltb m (n / d) ≡ false
div_le n m d h l = ground (arith, div-le_self n d)

le_mul : (n m d : ℕ) → ltb d 1 ≡ false → n ≤ m → ltb (m * d) n ≡ false
le_mul n m zero h l = absurd (ground arith)
le_mul n m (suc d) h l = ground arith

whole-IsOrdered : IsOrdered whole
whole-IsOrdered = record {
  IsNumber = λ x. Unit;
  IsSmall = λ x. Unit;
  IsRate = λ x. Unit;
  to_int-of_int = λ n h. refl;
  to_int-between = λ x n m a b c h k. ground arith;
  div-lt = λ n m d a h l b. (tt, div_le n m d h l);
  mul-lt = λ n m d a h p l b. (tt, le_mul n m d h l);
  factor-lt = λ rate n r h. (tt, ground arith);
  small-IsRate = λ rate r. tt;
  eager-IsRate = λ rate n m r a b c d. tt;
  eager_zero-IsRate = λ rate r. tt;
}

abbrev cfg : RateConfig whole
cfg = record {
  autotune_period = true;
  offer_accept_smoothing = 1;
  offer_accept_min = 0;
  acc_to_ack_max = 3;
  period_change_rate_up = 2;
  period_change_rate_down = 1;
  millionth = 0;
}

abbrev at : ℕ → Timeval
at t = record { tv_sec = t; tv_usec = 0 }

abbrev begin : Rate whole
begin = record {
  offer_accept = 1;
  acc_to_ack = 0;
  period = record { tv_sec = 0; tv_usec = 40000 };
  period_last_updated = at 0;
  period_initial = 0;
  reports = [];
}

abbrev calls : List (RateCall whole)
calls = accept true ∷ ack (at 9) (at 9) (found (some 8000000)) ∷ ack (at 10) (at 10) not_found ∷ []

rate_all-IsSound_example : IsSound whole whole-IsOrdered cfg (rate_all whole cfg calls begin)
unfolding IsMonotone tv2int whole-IsOrdered
rate_all-IsSound_example =
    rate_all-IsSound whole whole-IsOrdered cfg calls (at 9) begin (record { up = tt; down = tt })
      (omega arith) (omega arith, (omega arith, tt))
      (record { bounds = (omega arith, omega arith); initial = omega arith })
