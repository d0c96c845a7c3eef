-- ===== src/Loop/Schedule.antt =====
-- When the main loop of loop.c wakes up, and how often it offers and updates its peers.
use mathlib.Core.Path.{subst}
use streamers.Common.{
  ℕ, suc, ◌+◌, ◌/◌, ◌%◌, ◌≤◌, ◌≡◌, refl, inl, inr, ap, ◌∙◌, ◌++◌, List, [], ◌∷◌, arith, max, ◌==◌,
  Bool-cases,
}
use streamers.Timer.{
  Timeval, IsNormal, tv2int, timer_lt, timeradd_lem, timersub_lem, timer_lt_iff, timeradd, int2tv,
  tv2int-int2tv,
}
use streamers.Measures.Register.{MessageType, chunk, signalling, topology, tman, other}
use streamers.Loop.{
  tout_init, Call, update_peers, received_chunk, sig_parse_data, send_offer, update_own, Wakeup,
  message, acknowledged, receive_error, timeout, Loop, dispatch, tick, round, period_of, start, run,
  loop,
}

now_lem :
    (tnow tnext : Timeval)
    → tv2int tnext ≤ tv2int tnow
    → tv2int tnow + tv2int (record { tv_sec = 0; tv_usec = 0 }) ≡ max (tv2int tnow) (tv2int tnext)
unfolding tv2int
now_lem tnow tnext h = omega arith

-- The time-out is a normal time that ends when the next round is due, or at once if it is due.
pub tout_init_lem :
    (tnow tnext : Timeval)
    → IsNormal tnow
    → IsNormal tnext
    → IsNormal (tout_init tnow tnext)
      × (tv2int tnow + tv2int (tout_init tnow tnext) ≡ max (tv2int tnow) (tv2int tnext))
unfolding tout_init
tout_init_lem tnow tnext n m = elim (Bool-cases (timer_lt tnow tnext)) [
  | inl early ↦
      let before = (timer_lt_iff tnow tnext n m).0 early in
      let (d, e) = timersub_lem tnext tnow m n (omega arith) in
      rw (early, tout_init) (d, omega arith)
  | inr due ↦
      let after : tv2int tnext ≤ tv2int tnow = ground (arith, timer_lt_iff tnow tnext n m) in
      rw (due, tout_init) (omega arith, now_lem tnow tnext after)
]

abbrev pub timeouts : List Wakeup → ℕ
timeouts [] = 0
timeouts (message type ∷ ws) = timeouts ws
timeouts (acknowledged p ∷ ws) = timeouts ws
timeouts (receive_error ∷ ws) = timeouts ws
timeouts (timeout ∷ ws) = suc (timeouts ws)

-- How often a call was made.
abbrev pub offers : List Call → ℕ
offers [] = 0
offers (send_offer ∷ cs) = suc (offers cs)
offers (update_own ∷ cs) = offers cs
offers (update_peers ∷ cs) = offers cs
offers (received_chunk ∷ cs) = offers cs
offers (sig_parse_data ∷ cs) = offers cs

abbrev pub updates : List Call → ℕ
updates [] = 0
updates (update_own ∷ cs) = suc (updates cs)
updates (send_offer ∷ cs) = updates cs
updates (update_peers ∷ cs) = updates cs
updates (received_chunk ∷ cs) = updates cs
updates (sig_parse_data ∷ cs) = updates cs

-- How long the time-outs wait, if the period is `p` before: each as long as the period that was set last.
abbrev pub waited : (p : ℕ) → List Wakeup → ℕ
waited p [] = 0
waited p (message type ∷ ws) = waited p ws
waited p (acknowledged q ∷ ws) = waited q ws
waited p (receive_error ∷ ws) = waited p ws
waited p (timeout ∷ ws) = p + waited p ws

-- The next round is due `elapsed` after the start, the period is `p`, as many offers were sent as rounds were
-- counted, and the peers were updated once and then with every tenth of them.
pub record OnTime (begin : Timeval) (elapsed p : ℕ) (s : Loop) : Type 0 where
  pub normal : IsNormal s.tnext
  pub steady : IsNormal s.period
  pub lasts : tv2int s.period ≡ p
  pub due : tv2int s.tnext ≡ tv2int begin + elapsed
  pub offered : offers s.calls ≡ s.cnt
  pub updated : updates s.calls ≡ 1 + (s.cnt + 9) / 10

tick-OnTime :
    (begin : Timeval) (elapsed p : ℕ) (s : Loop)
    → OnTime begin elapsed p s
    → OnTime begin (elapsed + p) p (tick s)
unfolding tick
tick-OnTime begin elapsed p s w =
    let (m, e) = timeradd_lem s.tnext s.period w.normal w.steady in
    let due : tv2int (timeradd s.tnext s.period) ≡ tv2int begin + (elapsed + p) =
      omega (arith, w.lasts, w.due) in
    elim (Bool-cases (s.cnt % 10 == 0)) [
      | inl tenth ↦
          rw (tenth, tick)
            (record {
              normal = m;
              steady = w.steady;
              lasts = w.lasts;
              due = due;
              offered = omega (arith, w.offered);
              updated = ground (arith, w.updated);
            })
      | inr not_yet ↦
          rw (not_yet, tick)
            (record {
              normal = m;
              steady = w.steady;
              lasts = w.lasts;
              due = due;
              offered = omega (arith, w.offered);
              updated = ground (arith, w.updated);
            })
    ]

dispatch_lem :
    (type : MessageType) (cs : List Call)
    → (offers (dispatch type ++ cs) ≡ offers cs) × (updates (dispatch type ++ cs) ≡ updates cs)
unfolding dispatch
dispatch_lem tman cs = (refl, refl)
dispatch_lem topology cs = (refl, refl)
dispatch_lem chunk cs = (refl, refl)
dispatch_lem signalling cs = (refl, refl)
dispatch_lem other cs = (refl, refl)

-- A message that is handled, and the period behind that.
message-OnTime :
    (begin : Timeval) (elapsed p q : ℕ) (type : MessageType) (period : Timeval) (s : Loop)
    → OnTime begin elapsed p s
    → IsNormal period
    → tv2int period ≡ q
    → OnTime begin elapsed q (record s { calls = dispatch type ++ s.calls; period = period })
message-OnTime begin elapsed p q type period s w n e =
    let (o, u) = dispatch_lem type s.calls in
    record {
      normal = w.normal;
      steady = n;
      lasts = e;
      due = w.due;
      offered = o ∙ w.offered;
      updated = u ∙ w.updated;
    }

zero_lem : (n : ℕ) → 0 + n ≡ n
zero_lem n = omega arith

counted_lem : (s : Loop) (n : ℕ) → (tick s).cnt + n ≡ s.cnt + suc n
unfolding tick
counted_lem s n = omega arith

pub period_lem : (csize : ℕ) → IsNormal (period_of csize) × (tv2int (period_of csize) ≡ csize)
unfolding period_of tv2int
period_lem csize = omega arith

run-OnTime :
    (begin : Timeval) (ws : List Wakeup) (elapsed p : ℕ) (s : Loop)
    → OnTime begin elapsed p s
    → (q : ℕ) × OnTime begin (elapsed + waited p ws) q (run ws s)
      × ((run ws s).cnt ≡ s.cnt + timeouts ws)
unfolding run round
run-OnTime begin [] elapsed p s w =
    let e : elapsed ≡ elapsed + 0 = omega arith in
    (p, subst (λ n. OnTime begin n p s) e w, omega arith)
run-OnTime begin (message type ∷ ws) elapsed p s w =
    run-OnTime begin ws elapsed p (record s { calls = dispatch type ++ s.calls })
      (message-OnTime begin elapsed p p type s.period s w w.steady w.lasts)
run-OnTime begin (acknowledged q ∷ ws) elapsed p s w =
    let (n, e) = tv2int-int2tv q in
    run-OnTime begin ws elapsed q (round (acknowledged q) s)
      (message-OnTime begin elapsed p q signalling (int2tv q) s w n e)
run-OnTime begin (receive_error ∷ ws) elapsed p s w = run-OnTime begin ws elapsed p s w
run-OnTime begin (timeout ∷ ws) elapsed p s w =
    let (q, w', e) =
      run-OnTime begin ws (elapsed + p) p (tick s) (tick-OnTime begin elapsed p s w) in
    let sum : elapsed + p + waited p ws ≡ elapsed + (p + waited p ws) = omega arith in
    (q, subst (λ n. OnTime begin n q (run ws (tick s))) sum w', e ∙ counted_lem s (timeouts ws))

-- Whatever messages come between the time-outs, and whatever period rate control sets with them: after `n` time-outs
-- the next round is due behind the start as long as the periods last that were set when each of them came, the first
-- being `csize` microseconds; `n` offers were sent; and the peers were updated of its own accord once at the start
-- and with every tenth offer from the first on.
pub loop-OnTime :
    (csize : ℕ) (tnow : Timeval) (ws : List Wakeup)
    → IsNormal tnow
    → let s = loop csize tnow ws in
      (s.cnt ≡ timeouts ws)
      × (tv2int s.tnext ≡ tv2int tnow + waited csize ws)
      × (offers s.calls ≡ timeouts ws)
      × (updates s.calls ≡ 1 + (timeouts ws + 9) / 10)
unfolding loop start
loop-OnTime csize tnow ws m =
    let (n, p) = period_lem csize in
    let begun : OnTime tnow 0 csize (start csize tnow) = record {
      normal = m;
      steady = n;
      lasts = p;
      due = omega arith;
      offered = refl;
      updated = omega arith;
    } in
    let (q, w, e) = run-OnTime tnow ws 0 csize (start csize tnow) begun in
    let e' : (run ws (start csize tnow)).cnt ≡ timeouts ws = e ∙ zero_lem (timeouts ws) in
    let due = w.due in
    let updated = w.updated in
    (
      e',
      due ∙ ap (λ n. tv2int tnow + n) (zero_lem (waited csize ws)),
      w.offered ∙ e',
      rw e' at updated,
    )
