-- ===== src/Timer.antt =====
-- `struct timeval` and the macros on it, as compatibility/timer.h writes them (the C library's are
-- the same), with `tv2int` and `int2tv` of ratecontrol.c. Times are not before the epoch; a
-- difference is taken of a later and an earlier time.
use streamers.Common.{
  ℕ, ◌+◌, ◌-◌, ◌*◌, ◌/◌, ◌%◌, ◌≤◌, ◌<◌, ◌≡◌, ◌↔◌, Bool, true, arith, if◌then◌else◌, ltb, leb, ◌==◌,
  ◌||◌, not,
}

pub record Timeval : Type 0 where
  pub tv_sec : ℕ
  pub tv_usec : ℕ

unfoldable pub timeradd : Timeval → Timeval → Timeval
timeradd a b =
    if leb 1000000 (a.tv_usec + b.tv_usec)
    then record { tv_sec = a.tv_sec + b.tv_sec + 1; tv_usec = a.tv_usec + b.tv_usec - 1000000 }
    else record { tv_sec = a.tv_sec + b.tv_sec; tv_usec = a.tv_usec + b.tv_usec }

unfoldable pub timersub : Timeval → Timeval → Timeval
timersub a b =
    if ltb a.tv_usec b.tv_usec
    then record { tv_sec = a.tv_sec - b.tv_sec - 1; tv_usec = a.tv_usec + 1000000 - b.tv_usec }
    else record { tv_sec = a.tv_sec - b.tv_sec; tv_usec = a.tv_usec - b.tv_usec }

-- `timercmp(a, b, <)`
unfoldable pub timer_lt : Timeval → Timeval → Bool
timer_lt a b = if a.tv_sec == b.tv_sec then ltb a.tv_usec b.tv_usec else ltb a.tv_sec b.tv_sec

unfoldable pub timerisset : Timeval → Bool
timerisset a = not (a.tv_sec == 0) || not (a.tv_usec == 0)

unfoldable pub tv2int : Timeval → ℕ
tv2int tv = tv.tv_sec * 1000000 + tv.tv_usec

unfoldable pub int2tv : ℕ → Timeval
int2tv t = record { tv_sec = t / 1000000; tv_usec = t % 1000000 }

-- What the macros rely on, and keep.
pub record IsNormal (a : Timeval) : Type 0 where
  pub below : a.tv_usec < 1000000

pub timeradd_lem :
    (a b : Timeval)
    → IsNormal a
    → IsNormal b
    → IsNormal (timeradd a b) × (tv2int (timeradd a b) ≡ tv2int a + tv2int b)
unfolding timeradd tv2int
timeradd_lem a b ha hb = ground arith

pub timer_lt_iff :
    (a b : Timeval) → IsNormal a → IsNormal b → (timer_lt a b ≡ true) ↔ (tv2int a < tv2int b)
unfolding timer_lt tv2int
timer_lt_iff a b ha hb = ground arith

pub timersub_lem :
    (a b : Timeval)
    → IsNormal a
    → IsNormal b
    → tv2int b ≤ tv2int a
    → IsNormal (timersub a b) × (tv2int (timersub a b) + tv2int b ≡ tv2int a)
unfolding timersub tv2int
timersub_lem a b ha hb h = ground arith

pub tv2int-int2tv : (t : ℕ) → IsNormal (int2tv t) × (tv2int (int2tv t) ≡ t)
unfolding tv2int int2tv
tv2int-int2tv t = omega arith

pub int2tv-tv2int : (a : Timeval) → IsNormal a → int2tv (tv2int a) ≡ a
unfolding tv2int int2tv
int2tv-tv2int a h = ground arith
