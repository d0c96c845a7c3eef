-- ===== src/Measures/Publish.antt =====
-- The times and the divisions of measures.c.
use streamers.Common.{◌+◌, ◌<◌, ◌≤◌, ◌≡◌, ◌⊎◌, true, List, [], ◌∷◌}
use streamers.Timer.{Timeval, IsNormal, tv2int, timeradd}
use streamers.Measures.{Measures, Measure, Clock, clean, fresh_measures, print_measures}
use streamers.Measures.Register.{Event}

-- No value of the list is divided by zero.
abbrev pub Divides : List Measure → Type 0
Divides [] = Unit
Divides (x ∷ l) = (0 < x.den) × Divides l

-- The end of a span of measuring, when it is set, is `print_tdiff` behind its beginning; while measuring has not begun
-- it is not set, and the first span begins where measuring does. A span is not empty.
pub record IsTimed (s : Measures) : Type 0 where
  pub every : IsNormal s.print_tdiff
  pub delay : IsNormal s.tstartdiff
  pub lasts : 0 < tv2int s.print_tdiff
  pub tstart : IsNormal s.tstart
  pub print_tstart : IsNormal s.print_tstart
  pub tnext : IsNormal s.tnext
  pub waiting : s.startup ≡ true → tv2int s.tnext ≡ 0
  pub hour :
      ((tv2int s.tnext ≡ 0) × (tv2int s.print_tstart ≡ tv2int s.tstart))
      ⊎ (tv2int s.tnext ≡ tv2int s.print_tstart + tv2int s.print_tdiff)
  pub divides : Divides s.published

-- The state that `print_due` leaves when the hour is over.
abbrev over : Clock → Measures → Measures
over clock s = record (print_measures clock.later s) {
  m = clean;
  print_tstart = s.tnext;
  tnext = timeradd s.tnext s.print_tdiff;
}

-- The state at the start, with the two settings.
abbrev pub starting : (print_tdiff tstartdiff : Timeval) → Measures
starting print_tdiff tstartdiff = record fresh_measures {
  print_tdiff = print_tdiff;
  tstartdiff = tstartdiff;
}

-- Both readings of a clock are normal times, and it is not set back between them.
pub record IsForward (clock : Clock) : Type 0 where
  pub first : IsNormal clock.tnow
  pub second : IsNormal clock.later
  pub forward : tv2int clock.tnow ≤ tv2int clock.later

-- The events come with clocks that go forward.
abbrev pub AllForward : List (Clock × Event) → Type 0
AllForward [] = Unit
AllForward ((clock, e) ∷ es) = IsForward clock × AllForward es
