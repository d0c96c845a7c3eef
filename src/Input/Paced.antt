-- ===== src/Input/Paced.antt =====
-- How input-grapes.c numbers the chunks, and when it asks to be called again.
use mathlib.Core.Path.{subst}
use streamers.Common.{
  ℕ, zero, suc, ◌+◌, ◌-◌, ◌%◌, ◌^◌, ◌≤◌, ◌<◌, ◌≡◌, refl, ap, inl, inr, true, false, Option, none,
  some, List, [], ◌∷◌, ◌∙◌, length, arith, Bool-cases, if◌then◌else◌, ltb, ◌==◌, ℤ, pos,
}
use streamers.Chunk.{Chunk}
use streamers.Timer.{Timeval, tv2int}
use streamers.Input.{
  InputDesc, Chunkised, refused, unready, ready, int_of, wait, note_first, input_get, input_all,
}

-- The ids of the chunks that calls returned.
abbrev pub ids_of : List (ℤ × Option Chunk) → List ℕ
ids_of [] = []
ids_of ((delta, none) ∷ gots) = ids_of gots
ids_of ((delta, some c) ∷ gots) = c.id ∷ ids_of gots

-- `n` numbers from `first` on.
abbrev pub count_from : (first n : ℕ) → List ℕ
count_from first zero = []
count_from first (suc n) = first ∷ count_from (first + 1) n

note_first_id : (ts : ℕ) (s : InputDesc) → (note_first ts s).id ≡ s.id
unfolding note_first
note_first_id ts s = elim (Bool-cases (s.first_ts == 0)) [
  | inl fresh ↦ rw (fresh) refl
  | inr set ↦ rw (set) refl
]

-- The chunks of calls have the numbers from `i` on, and so has the descriptor behind them.
abbrev Numbered : ℕ → List (Chunkised × Timeval) → InputDesc → Type 0
Numbered i calls s =
    let ids = ids_of (input_all calls s).0 in
    (ids ≡ count_from i (length ids)) × ((input_all calls s).1.id ≡ i + length ids)

-- The chunks of any calls are numbered without a gap, from the id of the descriptor on, whatever calls without a
-- chunk or with an error are between them; and the next chunk gets the next number.
pub input_all-count_from :
    (calls : List (Chunkised × Timeval)) (s : InputDesc)
    → let ids = ids_of (input_all calls s).0 in
      (ids ≡ count_from s.id (length ids)) × ((input_all calls s).1.id ≡ s.id + length ids)
unfolding input_all input_get
input_all-count_from [] s = (refl, omega arith)
input_all-count_from ((refused, now) ∷ calls) s = input_all-count_from calls s
input_all-count_from ((unready ts, now) ∷ calls) s =
    subst (λ i. Numbered i calls (note_first ts s)) (note_first_id ts s)
      (input_all-count_from calls (note_first ts s))
input_all-count_from ((ready ts payload attributes, now) ∷ calls) s =
    let s' : InputDesc = record s { id = s.id + 1 } in
    let (e, f) =
      subst (λ i. Numbered i calls (note_first ts s')) (note_first_id ts s')
        (input_all-count_from calls (note_first ts s')) in
    (ap (λ l. s.id ∷ l) e, f ∙ omega arith)

-- When the chunk behind one of the time stamp `ts` is due: as long behind the start as `ts` is behind the first
-- time stamp, and a frame later.
abbrev pub due : (ts : ℕ) → InputDesc → ℕ
due ts s = s.start_time + (if s.first_ts == 0 then 0 else ts - s.first_ts) + s.interframe

-- The time stamp that `chunkise` sets.
abbrev pub stamp_of : Chunkised → Option ℕ
stamp_of refused = none
stamp_of (unready ts) = some ts
stamp_of (ready ts payload attributes) = some ts

-- The 64 bits hold the difference, or its negative in the upper half.
wrap_lem :
    (ts first frame start now : ℕ)
    → first ≤ ts
    → ts < 2 ^ 61
    → now < 2 ^ 61
    → start < 2 ^ 61
    → frame < 2 ^ 31
    → let delta =
        (ts + (2 ^ 64 - first % 2 ^ 64) + frame + start + (2 ^ 64 - now % 2 ^ 64)) % 2 ^ 64 in
      (if ltb delta (2 ^ 63) then delta else 0) ≡ start + (ts - first) + frame - now
wrap_lem ts first frame start now later small soon begun short =
    elim (Bool-cases (ltb (start + (ts - first) + frame) now)) [
      | inl past ↦
          let e : (ts + (2 ^ 64 - first % 2 ^ 64) + frame + start + (2 ^ 64 - now % 2 ^ 64))
                % 2 ^ 64
              ≡ 2 ^ 64 - (now - (start + (ts - first) + frame)) =
            ground arith in
          let above : ltb (2 ^ 64 - (now - (start + (ts - first) + frame))) (2 ^ 63) ≡ false =
            ground arith in
          rw (e, above) (ground arith)
      | inr ahead ↦
          let e : (ts + (2 ^ 64 - first % 2 ^ 64) + frame + start + (2 ^ 64 - now % 2 ^ 64))
                % 2 ^ 64
              ≡ start + (ts - first) + frame - now =
            ground arith in
          let below : ltb (start + (ts - first) + frame - now) (2 ^ 63) ≡ true = ground arith in
          rw (e, below) refl
    ]

wait_lem :
    (ts now : ℕ) (s : InputDesc)
    → 0 < s.interframe
    → s.first_ts ≤ ts
    → ts < 2 ^ 61
    → now < 2 ^ 61
    → s.start_time < 2 ^ 61
    → s.interframe < 2 ^ 31
    → wait ts now (note_first ts s) ≡ due ts s - now
unfolding wait note_first
wait_lem ts now s frame later small soon begun short =
    let framed : (s.interframe == 0) ≡ false = ground arith in
    elim (Bool-cases (s.first_ts == 0)) [
      | inl fresh ↦
          rw (fresh, framed)
            (wrap_lem ts ts s.interframe s.start_time now (omega arith) small soon begun short
              ∙ omega arith)
      | inr set ↦
          rw (set, framed)
            (wrap_lem ts s.first_ts s.interframe s.start_time now later small soon begun short)
    ]

int_of_lem : (n : ℕ) → n < 2 ^ 31 → int_of n ≡ pos n
unfolding int_of
int_of_lem n h = ground arith

-- What is left until a chunk is due, under the conditions that `input_get-due` states.
asked_lem :
    (ts now : ℕ) (s : InputDesc)
    → 0 < s.interframe
    → s.first_ts ≤ ts
    → ts < 2 ^ 61
    → now < 2 ^ 61
    → s.start_time < 2 ^ 61
    → s.interframe < 2 ^ 31
    → due ts s < now + 2 ^ 31
    → int_of (wait ts now (note_first ts s)) ≡ pos (due ts s - now)
asked_lem ts now s frame later small soon begun short close =
    ap int_of (wait_lem ts now s frame later small soon begun short)
    ∙ int_of_lem (due ts s - now) (omega arith)

-- The time that `input_get` asks for, in spite of its 64 and 32 bits, is what is left until the chunk behind the
-- one that it got is due, or 0 if that has passed: if there is a time between frames, times are below 2 ^ 61
-- microseconds, the time stamp is not before the first one, and the chunk is due within 2 ^ 31 microseconds.
pub input_get-due :
    (res : Chunkised) (now : Timeval) (s : InputDesc) {ts : ℕ}
    → stamp_of res ≡ some ts
    → 0 < s.interframe
    → s.first_ts ≤ ts
    → ts < 2 ^ 61
    → tv2int now < 2 ^ 61
    → s.start_time < 2 ^ 61
    → s.interframe < 2 ^ 31
    → due ts s < tv2int now + 2 ^ 31
    → (input_get res now s).0.0 ≡ pos (due ts s - tv2int now)
unfolding input_get
input_get-due refused now s e frame later small soon begun short close = absurd cc
input_get-due (unready t) now s {ts = ts} e frame later small soon begun short close =
    let same : t ≡ ts = cc in
    ap (λ t. int_of (wait t (tv2int now) (note_first t s))) same
    ∙ asked_lem ts (tv2int now) s frame later small soon begun short close
input_get-due (ready t payload attributes) now s {ts = ts} e frame later small soon begun short
      close =
    let same : t ≡ ts = cc in
    let s' : InputDesc = record s { id = s.id + 1 } in
    ap (λ t. int_of (wait t (tv2int now) (note_first t s'))) same
    ∙ asked_lem ts (tv2int now) s' frame later small soon begun short close
