-- ===== src/RateControl/Bounds.antt =====
-- That the period of ratecontrol.c stays between its bounds.
use streamers.Common.{
  ℕ, ◌^◌, ◌<◌, ◌≤◌, ◌≡◌, refl, ap, inl, inr, false, none, some, List, [], ◌∷◌, arith, if◌then◌else◌,
  ◌==◌, ◌&&◌, ◌-◌, Bool-cases, ltb, pos,
}
use streamers.Timer.{Timeval, tv2int, tv2int-int2tv, timerisset}
use streamers.Transaction.{not_found, found}
use streamers.RateControl.{
  Double, period_min, period_max, RateConfig, Rate, queue_delay, get_period, set_period,
  at_least_min, at_most_max, factor, faster, slower, elapsed, eager, adjust, Adjustment, speed_up,
  slow_down, choose, update_period, rc_reg_accept, update_acc_to_ack, rc_reg_ack, RateCall, accept,
  ack, rate_all,
}

module _ (double : Double) where
  open double use {D, of_int, to_int, lt, sub, mul, div, log}

  -- What the computation relies on: of IEEE numbers of 64 bits it holds with `IsNumber` for those that are no NaN,
  -- `IsSmall` for those from 0 to 2 ^ 50, and `IsRate` for those from 0 to 2 ^ 100. Whole numbers to 2 ^ 53 are exact,
  -- and a conversion stays between them; a division by 1 or more does not make a number larger, nor a multiplication
  -- smaller; a factor from a rate is 1 or more; and a small rate stays a rate if it is raised by a difference of
  -- logarithms of such whole numbers.
  pub record IsOrdered : Type 1 where
    pub IsNumber : D → Type 0
    pub IsSmall : D → Type 0
    pub IsRate : D → Type 0
    pub to_int-of_int : (n : ℕ) → n ≤ 2 ^ 53 → to_int (of_int (pos n)) ≡ n
    pub to_int-between :
        (x : D) (n m : ℕ)
        → IsNumber x
        → n ≤ 2 ^ 53
        → m ≤ 2 ^ 53
        → lt x (of_int (pos n)) ≡ false
        → lt (of_int (pos m)) x ≡ false
        → (n ≤ to_int x) × (to_int x ≤ m)
    pub div-lt :
        (n m : ℕ) (d : D)
        → IsNumber d
        → lt d (of_int (pos 1)) ≡ false
        → n ≤ m
        → m ≤ 2 ^ 53
        → IsNumber (div (of_int (pos n)) d) × (lt (of_int (pos m)) (div (of_int (pos n)) d) ≡ false)
    pub mul-lt :
        (n m : ℕ) (d : D)
        → IsNumber d
        → lt d (of_int (pos 1)) ≡ false
        → 0 < n
        → n ≤ m
        → m ≤ 2 ^ 53
        → IsNumber (mul (of_int (pos m)) d) × (lt (mul (of_int (pos m)) d) (of_int (pos n)) ≡ false)
    pub factor-lt :
        (rate : D) (n : ℕ)
        → IsRate rate
        → n ≤ period_max
        → IsNumber (factor double rate (pos n))
          × (lt (factor double rate (pos n)) (of_int (pos 1)) ≡ false)
    pub small-IsRate : (rate : D) → IsSmall rate → IsRate rate
    pub eager-IsRate :
        (rate : D) (n m : ℕ)
        → IsSmall rate
        → 0 < n
        → n ≤ 2 ^ 53
        → 0 < m
        → m ≤ 2 ^ 53
        → IsRate (eager double rate (sub (log (of_int (pos n))) (log (of_int (pos m)))))
    pub eager_zero-IsRate : (rate : D) → IsSmall rate → IsRate (eager double rate (of_int (pos 0)))

module _ (double : Double) (ordered : IsOrdered double) (cfg : RateConfig double) where
  open double use {D, of_int, to_int, lt}
  open ordered use {
    IsNumber, IsSmall, IsRate, to_int-of_int, to_int-between, div-lt, mul-lt, factor-lt,
    small-IsRate, eager-IsRate, eager_zero-IsRate,
  }

  abbrev pub InBounds : Rate double → Type 0
  InBounds s = (period_min ≤ tv2int s.period) × (tv2int s.period ≤ period_max)

  -- The rates of change are small.
  pub record IsSteady : Type 0 where
    pub up : IsSmall cfg.period_change_rate_up
    pub down : IsSmall cfg.period_change_rate_down

  -- The period is between its bounds, and what it was at first is an exact number.
  pub record IsSound (s : Rate double) : Type 0 where
    pub bounds : InBounds s
    pub initial : s.period_initial ≤ 2 ^ 53

  set_period-InBounds :
      (p : ℕ) (s : Rate double)
      → (period_min ≤ p) × (p ≤ period_max)
      → InBounds (set_period double p s)
  unfolding set_period
  set_period-InBounds p s h = rw ((tv2int-int2tv p).1) h

  faster-InBounds :
      (rate : D) (n : ℕ) (s : Rate double)
      → IsRate rate
      → n ≤ period_max
      → InBounds s
      → InBounds (faster double rate (pos n) s)
  unfolding faster at_least_min get_period
  faster-InBounds rate n s r few (lo, hi) =
      let x = double.div (of_int (pos (tv2int s.period))) (factor double rate (pos n)) in
      let (number, one) = factor-lt rate n r few in
      let (defined, below) =
        div-lt (tv2int s.period) period_max (factor double rate (pos n)) number one hi
          (omega arith) in
      set_period-InBounds _ s (elim (Bool-cases (lt x (of_int (pos period_min)))) [
        | inl small ↦
            rw (small, at_least_min, to_int-of_int period_min (omega arith))
              (omega arith, omega arith)
        | inr fits ↦
            rw (fits, at_least_min)
              (to_int-between x period_min period_max defined (omega arith) (omega arith) fits
                below)
      ])

  slower-InBounds :
      (rate : D) (n : ℕ) (s : Rate double)
      → IsRate rate
      → n ≤ period_max
      → InBounds s
      → InBounds (slower double rate (pos n) s)
  unfolding slower at_most_max get_period
  slower-InBounds rate n s r few (lo, hi) =
      let x = double.mul (of_int (pos (tv2int s.period))) (factor double rate (pos n)) in
      let (number, one) = factor-lt rate n r few in
      let (defined, above) =
        mul-lt period_min (tv2int s.period) (factor double rate (pos n)) number one (omega arith) lo
          (omega (arith, hi)) in
      set_period-InBounds _ s (elim (Bool-cases (lt (of_int (pos period_max)) x)) [
        | inl large ↦
            rw (large, at_most_max, to_int-of_int period_max (omega arith))
              (omega arith, omega arith)
        | inr fits ↦
            rw (fits, at_most_max)
              (to_int-between x period_min period_max defined (omega arith) (omega arith) above
                fits)
      ])

  rate_of : Adjustment double → D
  rate_of (speed_up rate) = rate
  rate_of (slow_down rate) = rate

  choose_rate :
      (s : Rate double)
      → IsSteady
      → InBounds s
      → 0 < s.period_initial
      → s.period_initial ≤ 2 ^ 53
      → IsRate (rate_of (choose double cfg s))
  unfolding choose rate_of get_period
  choose_rate s w (lo, hi) some_initial exact =
      let zero = of_int (pos 0) in
      let d_period =
        double.sub (double.log (of_int (pos (tv2int s.period))))
          (double.log (of_int (pos s.period_initial))) in
      let raised : (rate : D) → IsSmall rate → IsRate (eager double rate d_period) = λ rate small.
        eager-IsRate rate (tv2int s.period) s.period_initial small (omega (arith, lo))
          (omega (arith, hi)) some_initial exact in
      let d_acc_to_ack =
        double.div (double.sub s.acc_to_ack cfg.acc_to_ack_max) cfg.acc_to_ack_max in
      let good = lt zero (double.sub s.offer_accept cfg.offer_accept_min) && lt d_acc_to_ack zero in
      elim (Bool-cases (lt d_period zero)) [
        | inl fast ↦ elim (Bool-cases good) [
          | inl g ↦ rw (fast, g, choose) (small-IsRate cfg.period_change_rate_down w.down)
          | inr g ↦ rw (fast, g, choose) (raised cfg.period_change_rate_up w.up)
        ]
        | inr slow ↦ elim (Bool-cases (lt zero d_acc_to_ack)) [
          | inl g ↦ rw (slow, g, choose) (small-IsRate cfg.period_change_rate_up w.up)
          | inr g ↦ elim (Bool-cases (lt zero d_period)) [
            | inl late ↦ rw (slow, g, late, choose) (raised cfg.period_change_rate_down w.down)
            | inr even ↦
                rw (slow, g, even, choose) (eager_zero-IsRate cfg.period_change_rate_down w.down)
          ]
        ]
      ]

  adjust-InBounds :
      (a : Adjustment double) (n : ℕ) (s : Rate double)
      → IsRate (rate_of a)
      → n ≤ period_max
      → InBounds s
      → InBounds (adjust double a (pos n) s)
        × ((adjust double a (pos n) s).period_last_updated ≡ s.period_last_updated)
        × ((adjust double a (pos n) s).period_initial ≡ s.period_initial)
  unfolding adjust rate_of faster slower set_period
  adjust-InBounds (speed_up rate) n s r few h = (faster-InBounds rate n s r few h, refl, refl)
  adjust-InBounds (slow_down rate) n s r few h = (slower-InBounds rate n s r few h, refl, refl)

  -- The time that has passed is not negative, if the clock was not set back.
  elapsed-pos :
      (t_now : Timeval) (s : Rate double)
      → tv2int s.period_last_updated ≤ tv2int t_now
      → InBounds s
      → (n : ℕ) × (elapsed double t_now s ≡ pos n) × (n ≤ period_max)
  unfolding elapsed
  elapsed-pos t_now s l h = elim (Bool-cases (timerisset s.period_last_updated)) [
    | inr first ↦ (tv2int s.period, rw (first) refl, h.1)
    | inl again ↦
        let forward : ltb (tv2int t_now) (tv2int s.period_last_updated) ≡ false = ground arith in
        let d = tv2int t_now - tv2int s.period_last_updated in
        (if ltb d period_max then d else period_max, rw (again, forward) refl, ground arith)
  ]

  update_period-IsSound :
      (t_now : Timeval) (s : Rate double)
      → IsSteady
      → tv2int s.period_last_updated ≤ tv2int t_now
      → IsSound s
      → IsSound (update_period double cfg t_now s)
        × ((update_period double cfg t_now s).period_last_updated ≡ t_now)
  unfolding update_period get_period
  update_period-IsSound t_now s w l h =
      let s' : Rate double = record s {
        period_initial = if s.period_initial == 0 then tv2int s.period else s.period_initial;
      } in
      let (lo, hi) = h.bounds in
      let initial = h.initial in
      let some_initial : 0 < s'.period_initial = ground arith in
      let exact : s'.period_initial ≤ 2 ^ 53 = ground arith in
      let (n, e, few) = elapsed-pos t_now s' l (lo, hi) in
      let (h', updated, kept) =
        adjust-InBounds (choose double cfg s') n (record s' { period_last_updated = t_now })
          (choose_rate s' w (lo, hi) some_initial exact) few (lo, hi) in
      rw (e) (record { bounds = h'; initial = rw (kept) exact }, updated)

  update_acc_to_ack-IsSound :
      (t : D) (t_now : Timeval) (s : Rate double)
      → IsSteady
      → tv2int s.period_last_updated ≤ tv2int t_now
      → IsSound s
      → IsSound (update_acc_to_ack double cfg t t_now s)
        × (tv2int (update_acc_to_ack double cfg t t_now s).period_last_updated ≤ tv2int t_now)
  unfolding update_acc_to_ack
  update_acc_to_ack-IsSound t t_now s w l h =
      let s' : Rate double = record s { reports = queue_delay t ∷ s.reports; acc_to_ack = t } in
      let h1 : IsSound s' = record { bounds = h.bounds; initial = h.initial } in
      elim (Bool-cases cfg.autotune_period) [
        | inl tuned ↦
            let (h', e) = update_period-IsSound t_now s' w l h1 in
            simp (tuned, update_acc_to_ack) (h', omega (arith, ap tv2int e))
        | inr fixed ↦ simp (fixed, update_acc_to_ack) (h1, l)
      ]

  -- The clock of the acknowledgements is never set back.
  unfoldable pub IsMonotone : Timeval → List (RateCall double) → Type 0
  IsMonotone last [] = Unit
  IsMonotone last (accept a ∷ cs) = IsMonotone last cs
  IsMonotone last (ack t_now t_now' r ∷ cs) = (tv2int last ≤ tv2int t_now') × IsMonotone t_now' cs

  -- If the rates of change are small and the clock is never set back, then whatever offers are accepted and whatever
  -- transactions are acknowledged, known or not: the period, which is between PERIOD_MIN and PERIOD_MAX microseconds
  -- at the start, stays so, and what it was at first an exact number.
  pub rate_all-IsSound :
      (cs : List (RateCall double)) (last : Timeval) (s : Rate double)
      → IsSteady
      → tv2int s.period_last_updated ≤ tv2int last
      → IsMonotone last cs
      → IsSound s
      → IsSound (rate_all double cfg cs s)
  unfolding rate_all IsMonotone rc_reg_accept rc_reg_ack update_acc_to_ack
  rate_all-IsSound [] last s w l m h = h
  rate_all-IsSound (accept a ∷ cs) last s w l m h =
      rate_all-IsSound cs last _ w l m (record { bounds = h.bounds; initial = h.initial })
  rate_all-IsSound (ack t t' not_found ∷ cs) last s w l (k, m) h =
      rate_all-IsSound cs t' s w (omega (arith, l, k)) m h
  rate_all-IsSound (ack t t' (found none) ∷ cs) last s w l (k, m) h =
      rate_all-IsSound cs t' s w (omega (arith, l, k)) m h
  rate_all-IsSound (ack t t' (found (some t_acc)) ∷ cs) last s w l (k, m) h =
      let (h', l') = update_acc_to_ack-IsSound _ t' s w (omega (arith, l, k)) h in
      rate_all-IsSound cs t' _ w l' m h'
