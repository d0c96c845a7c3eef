-- ===== src/Input.antt =====
-- input-grapes.c: the input, whose chunks the chunkiser of GRAPES cuts. `input_stream_open`, `input_get_fds` and
-- `chunkise` are arguments: what comes of a call is a `Stream` or a `Chunkised`.
pub mod Paced
mod Tests
use streamers.Common.{
  ℕ, ◌+◌, ◌-◌, ◌*◌, ◌/◌, ◌%◌, ◌^◌, Bool, true, false, Option, none, some, List, [], ◌∷◌, map,
  if◌then◌else◌, ltb, ◌==◌, ℤ, pos, negsuc,
}
use streamers.Chunk.{Chunk, Attributes}
use streamers.Chunkstream.{before_comma}
use streamers.Timer.{Timeval, tv2int}

-- `struct input_desc`, without the stream of the chunkiser.
pub record InputDesc : Type 0 where
  pub id : ℕ
  pub interframe : ℕ
  pub start_time : ℕ
  pub first_ts : ℕ

-- Of a name, what stands behind its first comma, if there is one.
pub behind_comma : List ℕ → Option (List ℕ)
behind_comma [] = none
behind_comma (c ∷ cs) = if c == 44 then some cs else behind_comma cs

-- What `input_stream_open` returns: nothing, or a stream with its time between frames and its descriptors.
pub data Stream : Type 0 where
  unopened : Stream
  opened : (interframe : ℕ) (my_fds : List ℕ) → Stream

abbrev pub int_max : ℕ
int_max = 2147483647

-- The descriptor and the `fds` before the -1. `memory` is what `malloc` found in the memory, which stays in
-- the fields that are not set.
pub input_open :
    (List ℕ → Option (List ℕ) → Stream)
    → (initial_id : Option ℕ) (now : Timeval) (memory : InputDesc) (fname : List ℕ)
    → Option (InputDesc × List ℕ)
unfolding behind_comma
input_open input_stream_open initial_id now memory fname =
    elim (input_stream_open (before_comma fname) (behind_comma fname)) [
      | unopened ↦ none
      | opened interframe my_fds ↦
          if interframe == 0
          then some (record memory { interframe = interframe }, my_fds)
          else let start_time = tv2int now % 2 ^ 64 in
            let id : ℕ = elim initial_id [
              | none ↦ start_time / interframe % int_max
              | some i ↦ i
            ] in
            some (
              record { id = id; interframe = interframe; start_time = start_time; first_ts = 0 },
              [],
            )
    ]

-- What `chunkise` comes to: a negative result, none with no data in the chunk, or a chunk.
pub data Chunkised : Type 0 where
  refused : Chunkised
  unready : (timestamp : ℕ) → Chunkised
  ready : (timestamp : ℕ) (payload : List ℕ) (attributes : Attributes) → Chunkised

-- The `int` of the lower 32 bits.
pub int_of : ℕ → ℤ
int_of n = let low = n % 2 ^ 32 in if ltb low (2 ^ 31) then pos low else negsuc (2 ^ 32 - 1 - low)

-- `c->timestamp - s->first_ts + s->interframe`, `+ s->start_time`, minus the time that it is, in 64 bits, of which
-- the upper half is the negative numbers; or INT_MAX without a time between frames.
pub wait : (ts now : ℕ) → InputDesc → ℕ
wait ts now s =
    if s.interframe == 0
    then int_max
    else let delta =
        (ts
          + (2 ^ 64 - s.first_ts % 2 ^ 64)
          + s.interframe
          + s.start_time
          + (2 ^ 64 - now % 2 ^ 64))
        % 2 ^ 64 in
      if ltb delta (2 ^ 63) then delta else 0

-- `if (s->first_ts == 0)`
pub note_first : ℕ → InputDesc → InputDesc
note_first ts s = if s.first_ts == 0 then record s { first_ts = ts } else s

-- What is returned, the chunk if there is data in it, and the descriptor.
pub input_get : Chunkised → (now : Timeval) → InputDesc → (ℤ × Option Chunk) × InputDesc
unfolding int_of wait note_first
input_get refused now s = ((negsuc 0, none), s)
input_get (unready ts) now s =
    let s' = note_first ts s in ((int_of (wait ts (tv2int now) s'), none), s')
input_get (ready ts payload attributes) now s =
    let s' = note_first ts (record s { id = s.id + 1 }) in
    let c : Chunk = record {
      id = s.id;
      timestamp = tv2int now % 2 ^ 64;
      payload = payload;
      attributes = attributes;
    } in
    ((int_of (wait ts (tv2int now) s'), some c), s')

-- The calls of `input_get` in order, with what each returned.
pub input_all : List (Chunkised × Timeval) → InputDesc → List (ℤ × Option Chunk) × InputDesc
unfolding input_get
input_all [] s = ([], s)
input_all ((res, now) ∷ calls) s =
    let (got, s') = input_get res now s in let (gots, s'') = input_all calls s' in (got ∷ gots, s'')
