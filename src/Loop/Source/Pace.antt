-- ===== src/Loop/Source/Pace.antt =====
-- What the rounds of `source_loop` (loop.c) call how often.
use streamers.Common.{
  ℕ, zero, suc, ◌+◌, ◌*◌, ◌/◌, ◌%◌, ◌≡◌, inl, inr, ap, ◌∙◌, List, [], ◌∷◌, ◌++◌, arith, ◌==◌,
  Bool-cases, replicate,
}
use streamers.Timer.{Timeval, IsNormal, tv2int, timer_lt, timeradd, timeradd_lem}
use streamers.Loop.Source.{
  SourceCall, update_peers, sig_parse_data, add_chunk, send_chunk, send_offer, update_own,
  set_period, Source, count_update, push_chunk, check_offer,
}

-- How often the source added a chunk, pushed, offered, and updated its peers of its own accord; the period that was
-- set last, and how long the periods last that were set when the offers were sent.
pub record Tally : Type 0 where
  pub added : ℕ
  pub pushed : ℕ
  pub offered : ℕ
  pub updated : ℕ
  pub period : ℕ
  pub elapsed : ℕ

-- The calls are the newest first; the period is `csize` before the first of them.
abbrev pub tally : (csize : ℕ) → List SourceCall → Tally
tally csize [] = record {
  added = 0;
  pushed = 0;
  offered = 0;
  updated = 0;
  period = csize;
  elapsed = 0;
}
tally csize (add_chunk ∷ cs) = let t = tally csize cs in record t { added = suc t.added }
tally csize (send_chunk ∷ cs) = let t = tally csize cs in record t { pushed = suc t.pushed }
tally csize (send_offer ∷ cs) =
    let t = tally csize cs in record t { offered = suc t.offered; elapsed = t.elapsed + t.period }
tally csize (update_own ∷ cs) = let t = tally csize cs in record t { updated = suc t.updated }
tally csize (set_period p ∷ cs) = record (tally csize cs) { period = p }
tally csize (update_peers ∷ cs) = tally csize cs
tally csize (sig_parse_data ∷ cs) = tally csize cs

-- Every chunk that was added was pushed `chunks` times, the peers were updated with every tenth chunk or offer, and
-- the next offer is as long behind the start as the periods last that were set when the offers were sent.
pub record InPace (chunks csize : ℕ) (begin : Timeval) (s : Source) : Type 0 where
  pub normal : IsNormal s.tnextp
  pub steady : IsNormal s.period
  pub lasts : tv2int s.period ≡ (tally csize s.calls).period
  pub counted : s.cnt ≡ (tally csize s.calls).added + (tally csize s.calls).offered
  pub pushes : (tally csize s.calls).pushed ≡ (tally csize s.calls).added * chunks
  pub updates : (tally csize s.calls).updated ≡ (s.cnt + 9) / 10
  pub due : tv2int s.tnextp ≡ tv2int begin + (tally csize s.calls).elapsed

tally-replicate :
    (csize n : ℕ) (cs : List SourceCall)
    → tally csize (replicate n send_chunk ++ cs)
      ≡ (let t = tally csize cs in record t { pushed = n + t.pushed })
tally-replicate csize zero cs =
    let e : (tally csize cs).pushed ≡ 0 + (tally csize cs).pushed = omega arith in
    ap (λ p. record (tally csize cs) { pushed = p }) e
tally-replicate csize (suc n) cs =
    let e : suc (n + (tally csize cs).pushed) ≡ suc n + (tally csize cs).pushed = omega arith in
    ap (λ (t : Tally). record t { pushed = suc t.pushed }) (tally-replicate csize n cs)
    ∙ ap (λ p. record (tally csize cs) { pushed = p }) e

count_update-InPace :
    (chunks csize : ℕ) (begin next : Timeval) (s : Source)
    → IsNormal next
    → IsNormal s.period
    → tv2int s.period ≡ (tally csize s.calls).period
    → s.cnt + 1 ≡ (tally csize s.calls).added + (tally csize s.calls).offered
    → (tally csize s.calls).pushed ≡ (tally csize s.calls).added * chunks
    → (tally csize s.calls).updated ≡ (s.cnt + 9) / 10
    → tv2int next ≡ tv2int begin + (tally csize s.calls).elapsed
    → InPace chunks csize begin (record (count_update s) { tnextp = next })
unfolding count_update
count_update-InPace chunks csize begin next s n st la c p u d =
    elim (Bool-cases (s.cnt % 10 == 0)) [
      | inl tenth ↦ rw (tenth) (record {
        normal = n;
        steady = st;
        lasts = la;
        counted = omega arith;
        pushes = p;
        updates = ground arith;
        due = d;
      })
      | inr uneven ↦ rw (uneven) (record {
        normal = n;
        steady = st;
        lasts = la;
        counted = omega arith;
        pushes = p;
        updates = ground arith;
        due = d;
      })
    ]

pub push_chunk-InPace :
    (chunks csize : ℕ) (begin : Timeval) (s : Source)
    → InPace chunks csize begin s
    → InPace chunks csize begin (push_chunk chunks s)
unfolding push_chunk
push_chunk-InPace chunks csize begin s w =
    let t = tally-replicate csize chunks (add_chunk ∷ s.calls) in
    let s' : Source = record s { calls = replicate chunks send_chunk ++ add_chunk ∷ s.calls } in
    count_update-InPace chunks csize begin s.tnextp s' w.normal w.steady (rw t w.lasts)
      (rw t (omega (arith, w.counted))) (rw t (omega (arith, w.pushes))) (rw t w.updates)
      (rw t w.due)

pub check_offer-InPace :
    (chunks csize : ℕ) (begin tnow : Timeval) (s : Source)
    → InPace chunks csize begin s
    → InPace chunks csize begin (check_offer tnow s)
unfolding check_offer
check_offer-InPace chunks csize begin tnow s w = elim (Bool-cases (timer_lt tnow s.tnextp)) [
  | inl early ↦ rw (early, check_offer) w
  | inr due ↦
      let (m, e) = timeradd_lem s.tnextp s.period w.normal w.steady in
      rw (due, check_offer)
        (count_update-InPace chunks csize begin (timeradd s.tnextp s.period)
          (record s { calls = send_offer ∷ s.calls }) m w.steady w.lasts (omega (arith, w.counted))
          w.pushes w.updates (omega (arith, w.due, w.lasts, e)))
]
