-- ===== src/Topology/Rtt.antt =====
-- How topology.c compares peers: by their round trip time, and whether one is desired. A `double` that is NaN, where
-- nothing was measured, is `none`; other times are microseconds, capacities whole numbers.
use streamers.Common.{
  ℕ, ◌-◌, Bool, true, false, ◌&&◌, ◌||◌, Option, none, some, if◌then◌else◌, ltb, leb, ◌==◌, ℤ, pos,
  negsuc,
}

abbrev is_nan : Option ℕ → Bool
is_nan none = true
is_nan (some x) = false

-- `rtt <= desired_rtt`, where `desired_rtt` is `none` if it is not finite; a comparison with NaN fails.
abbrev within : Option ℕ → Option ℕ → Bool
within none desired = false
within (some rtt) none = true
within (some rtt) (some desired) = leb rtt desired

abbrev reaches : Option ℕ → ℕ → Bool
reaches none desired = false
reaches (some bw) desired = leb desired bw

abbrev is_finite : Option ℕ → Bool
is_finite none = false
is_finite (some x) = true

-- 1 for yes, 0 for no, -1 for unknown.
pub desiredness : (desired_rtt : Option ℕ) (desired_bw : ℕ) (rtt bw : Option ℕ) → ℤ
desiredness desired_rtt desired_bw rtt bw =
    if (is_nan rtt && is_finite desired_rtt) || (is_nan bw && ltb 0 desired_bw)
    then negsuc 0
    else if (is_nan rtt || within rtt desired_rtt) && (is_nan bw || reaches bw desired_bw)
    then pos 1
    else pos 0

pub is_desired : (desired_rtt : Option ℕ) (desired_bw : ℕ) (rtt bw : Option ℕ) → Bool
unfolding desiredness
is_desired desired_rtt desired_bw rtt bw = elim (desiredness desired_rtt desired_bw rtt bw) [
  | pos n ↦ n == 1
  | negsuc n ↦ false
]

pub cmp_rtt : (ra rb : Option ℕ) → ℤ
cmp_rtt none none = pos 0
cmp_rtt none (some b) = pos 1
cmp_rtt (some a) none = negsuc 0
cmp_rtt (some a) (some b) = if a == b then pos 0 else if ltb a b then negsuc 0 else pos 1

abbrev distance : ℕ → ℕ → ℕ
distance a b = if ltb a b then b - a else a - b

-- `simpleRanker`: 1 if the first is closer to the target, 2 if the second is.
pub simple_ranker : (t p1 p2 : Option ℕ) → ℕ
simple_ranker none p1 p2 = 0
simple_ranker (some t) none none = 0
simple_ranker (some t) none (some b) = 2
simple_ranker (some t) (some a) none = 1
simple_ranker (some t) (some a) (some b) =
    if distance t a == distance t b then 0 else if ltb (distance t a) (distance t b) then 1 else 2
