-- ===== src/RateControl.antt =====
-- ratecontrol.c: the period between offers, which follows the share of accepted offers and the time from an accept
-- to the acknowledgement. What the source computes as `double` is computed by a `Double`.
pub mod Bounds
mod Tests
use streamers.Common.{
  ℕ, ◌+◌, Bool, true, false, not, ◌&&◌, Option, none, some, List, [], ◌∷◌, if◌then◌else◌, ◌==◌, ℤ,
  pos, sub_ℤ, min_ℤ,
}
use streamers.Timer.{Timeval, tv2int, int2tv, timerisset}
use streamers.Transaction.{RemoveResult, not_found, found}

-- The type `double`, as ratecontrol.c uses it: conversions from and to `int64_t`, the comparison `<`, the
-- operations, `log` and `fabs` of math.h.
pub record Double : Type 1 where
  pub D : Type 0
  pub of_int : ℤ → D
  pub to_int : D → ℕ
  pub lt : D → D → Bool
  pub add : D → D → D
  pub sub : D → D → D
  pub mul : D → D → D
  pub div : D → D → D
  pub log : D → D
  pub fabs : D → D

-- `PERIOD_MIN` and `PERIOD_MAX`
abbrev pub period_min : ℕ
period_min = 5000

abbrev pub period_max : ℕ
period_max = 1000000

module _ (double : Double) where
  open double use {D, of_int, to_int, lt, add, sub, mul, div, log, fabs}

  -- The settings, which are global variables, and the constant 1e-6.
  pub record RateConfig : Type 0 where
    pub autotune_period : Bool
    pub offer_accept_smoothing : D
    pub offer_accept_min : D
    pub acc_to_ack_max : D
    pub period_change_rate_up : D
    pub period_change_rate_down : D
    pub millionth : D

  -- What is registered with measures.c: `reg_period` and `reg_queue_delay`.
  pub data RateReport : Type 0 where
    period : ℕ → RateReport
    queue_delay : D → RateReport

  -- The static variables, the global `period`, and the reports, newest first. A `period_initial` of 0 is one
  -- that is not set.
  pub record Rate : Type 0 where
    pub offer_accept : D
    pub acc_to_ack : D
    pub period : Timeval
    pub period_last_updated : Timeval
    pub period_initial : ℕ
    pub reports : List RateReport

  abbrev nat : ℕ → D
  nat n = of_int (pos n)

  -- `get_period` and `set_period`
  pub get_period : Rate → ℕ
  get_period s = tv2int s.period

  pub set_period : ℕ → Rate → Rate
  set_period p s = record s { reports = RateReport.period p ∷ s.reports; period = int2tv p }

  -- `MAX(PERIOD_MIN, x)` and `MIN(PERIOD_MAX, x)`, as the `int64_t` that they are handed on as.
  pub at_least_min : D → ℕ
  at_least_min x = to_int (if lt x (nat period_min) then nat period_min else x)

  pub at_most_max : D → ℕ
  at_most_max x = to_int (if lt (nat period_max) x then nat period_max else x)

  -- `1.0 + (rate * dt / 1e6)`
  abbrev pub factor : D → ℤ → D
  factor rate dt = add (nat 1) (div (mul rate (of_int dt)) (nat 1000000))

  pub faster : D → ℤ → Rate → Rate
  unfolding set_period get_period at_least_min
  faster rate dt s = set_period (at_least_min (div (nat (get_period s)) (factor rate dt))) s

  pub slower : D → ℤ → Rate → Rate
  unfolding set_period get_period at_most_max
  slower rate dt s = set_period (at_most_max (mul (nat (get_period s)) (factor rate dt))) s

  -- `MIN(tv2int(&t_now) - tv2int(&period_last_updated), PERIOD_MAX)`, or the period the first time
  pub elapsed : Timeval → Rate → ℤ
  elapsed t_now s =
      if timerisset s.period_last_updated
      then min_ℤ (sub_ℤ (tv2int t_now) (tv2int s.period_last_updated)) period_max
      else pos (tv2int s.period)

  -- `rate * (1 + fabs(d_period))`
  abbrev pub eager : D → D → D
  eager rate d_period = mul rate (add (nat 1) (fabs d_period))

  -- Whether to go faster or slower, and at which rate.
  pub data Adjustment : Type 0 where
    speed_up slow_down : D → Adjustment

  pub choose : RateConfig → Rate → Adjustment
  unfolding get_period
  choose cfg s =
      let d_offer_accept = sub s.offer_accept cfg.offer_accept_min in
      let d_acc_to_ack = div (sub s.acc_to_ack cfg.acc_to_ack_max) cfg.acc_to_ack_max in
      let d_period = sub (log (nat (get_period s))) (log (nat s.period_initial)) in
      if lt d_period (nat 0)
      then if lt (nat 0) d_offer_accept && lt d_acc_to_ack (nat 0)
        then speed_up cfg.period_change_rate_down
        else slow_down
            (eager cfg.period_change_rate_up (if lt d_period (nat 0) then d_period else nat 0))
      else if lt (nat 0) d_acc_to_ack
      then slow_down cfg.period_change_rate_up
      else speed_up
          (eager cfg.period_change_rate_down (if lt (nat 0) d_period then d_period else nat 0))

  pub adjust : Adjustment → ℤ → Rate → Rate
  unfolding faster slower
  adjust (speed_up rate) dt s = faster rate dt s
  adjust (slow_down rate) dt s = slower rate dt s

  pub update_period : RateConfig → Timeval → Rate → Rate
  unfolding get_period elapsed choose adjust
  update_period cfg t_now s =
      let initial = if s.period_initial == 0 then get_period s else s.period_initial in
      let s' : Rate = record s { period_initial = initial } in
      adjust (choose cfg s') (elapsed t_now s') (record s' { period_last_updated = t_now })

  -- `rc_reg_accept` is `update_offer_accept`.
  pub rc_reg_accept : RateConfig → Bool → Rate → Rate
  rc_reg_accept cfg accepted s = record s {
    offer_accept =
        add (mul s.offer_accept cfg.offer_accept_smoothing)
          (if accepted then sub (nat 1) cfg.offer_accept_smoothing else nat 0);
  }

  pub update_acc_to_ack : RateConfig → D → Timeval → Rate → Rate
  unfolding update_period
  update_acc_to_ack cfg t t_now s =
      let s' : Rate = record s { reports = queue_delay t ∷ s.reports; acc_to_ack = t } in
      if cfg.autotune_period then update_period cfg t_now s' else s'

  -- `rc_reg_ack`, given what `transaction_remove` returns: the time of the accept in microseconds, or a negative
  -- number. `t_now` is its own reading of the clock, `t_now'` the one of `update_period`.
  pub rc_reg_ack : RateConfig → (t_now t_now' : Timeval) → RemoveResult → Rate → Rate
  unfolding update_acc_to_ack
  rc_reg_ack cfg t_now t_now' not_found s = s
  rc_reg_ack cfg t_now t_now' (found none) s = s
  rc_reg_ack cfg t_now t_now' (found (some t_acc)) s =
      let seconds = add (nat t_now.tv_sec) (mul (nat t_now.tv_usec) cfg.millionth) in
      update_acc_to_ack cfg (sub seconds (mul (nat t_acc) cfg.millionth)) t_now' s

  -- The calls from outside, in order.
  pub data RateCall : Type 0 where
    accept : Bool → RateCall
    ack : (t_now t_now' : Timeval) → RemoveResult → RateCall

  pub rate_all : RateConfig → List RateCall → Rate → Rate
  unfolding rc_reg_accept rc_reg_ack
  rate_all cfg [] s = s
  rate_all cfg (accept accepted ∷ cs) s = rate_all cfg cs (rc_reg_accept cfg accepted s)
  rate_all cfg (ack t_now t_now' r ∷ cs) s = rate_all cfg cs (rc_reg_ack cfg t_now t_now' r s)
