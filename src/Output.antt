-- ===== src/Output.antt =====
-- output-grapes.c: the output buffer, which puts received chunks back in order before they are
-- written. `output_deliver` is the only operation that the rest of the program calls.
--
-- A slot whose `data` is NULL is `none`. The variables that start at -1 (`next_chunk`,
-- `last_chunk`, `start_id`, `end_id`) are options; chunk ids are not negative, and sums of an id
-- and the buffer's size stay under 2^31 (a signed overflow is undefined in C), so they are exact.
-- `chunk_write`, `reg_chunk_playout` and `reg_chunk_duplicate` are calls into other modules: they
-- are recorded in the state, the latest first. `exit(-1)` is the result `crash`.
pub mod Window
pub mod Invariant
pub mod Deliver
pub mod Session
pub mod Playout
pub mod Tests
use streamers.Common.{
  ℕ, zero, suc, ◌+◌, ◌-◌, ◌%◌, Bool, true, false, not, Option, none, some, List, [], ◌∷◌,
  if◌then◌else◌, ltb, leb, ◌==◌, ◌&&◌, get_elem?, get_or, set, replicate,
}
use mathlib.Core.Option
use streamers.Chunk.{Chunk}

-- What is set once: `buff_size`, `reorder`, `start_id` and `end_id`.
pub record OutputConfig : Type 0 where
  pub buff_size : ℕ
  pub reorder : Bool
  pub start_id : Option ℕ
  pub end_id : Option ℕ

-- The calls of `reg_chunk_playout(id, b, timestamp)` and `reg_chunk_duplicate()`.
pub data Report : Type 0 where
  playout : ℕ → Bool → ℕ → Report
  duplicate : Report

pub record Output : Type 0 where
  pub buff : List (Option Chunk)
  pub next_chunk : Option ℕ
  pub last_chunk : Option ℕ
  pub sflag : Bool
  pub eflag : Bool
  pub written : List Chunk
  pub reports : List Report

-- `output_init`: the buffer is allocated with every slot empty.
pub output_init : ℕ → Output
output_init bufsize = record {
  buff = replicate bufsize none;
  next_chunk = none;
  last_chunk = none;
  sflag = false;
  eflag = false;
  written = [];
  reports = [];
}

pub data Delivery : Type 0 where
  delivered : Output → Delivery
  crash : Delivery

-- `buff[i].c`, where `data` is not NULL.
abbrev pub slot : List (Option Chunk) → ℕ → Option Chunk
slot buff i = get_or buff i none

chunk_write : Chunk → Output → Output
chunk_write c s = record s { written = c ∷ s.written }

-- `start_id == -1 || id >= start_id`, `end_id == -1 || id <= end_id`, `last_chunk != -1`.
abbrev pub at_least : Option ℕ → ℕ → Bool
at_least none id = true
at_least (some b) id = leb b id

abbrev pub at_most : Option ℕ → ℕ → Bool
at_most none id = true
at_most (some b) id = leb id b

abbrev is_set : Option ℕ → Bool
is_set none = false
is_set (some n) = true

module _ (cfg : OutputConfig) where
  open cfg use {buff_size, reorder, start_id, end_id}

  -- The block that `buffer_free` and `output_deliver` share: write the chunk if its id is in the
  -- configured range, and note the first and the last id that is played.
  pub play : Chunk → Output → Output
  unfolding chunk_write
  play c s =
      if at_least start_id c.id
      then (if at_most end_id c.id
          then record (if reorder then chunk_write c s else s) {
            sflag = true;
            last_chunk = some c.id;
          }
          else if not s.eflag && is_set s.last_chunk
          then record s { eflag = true }
          else s)
      else s

  -- `buffer_free(i)`, where slot `i` holds `c`.
  pub buffer_free : ℕ → Chunk → Output → Output
  buffer_free i c s =
      let s' = play c s in
      record s' {
        buff = set s'.buff i none;
        reports = playout c.id true c.timestamp ∷ s'.reports;
        next_chunk = some (c.id + 1);
      }

  -- The loop of `buffer_flush` from slot `i`, which stops when it is back at `first`.
  pub flush_loop : ℕ → ℕ → ℕ → Output → Output
  flush_loop zero first i s = s
  flush_loop (suc fuel) first i s = elim (slot s.buff i) [
    | none ↦ s
    | some c ↦
        let i' = suc i % buff_size in
        let s' = buffer_free i c s in
        let rest = flush_loop fuel first i' s' in if i' == first then s' else rest
  ]

  -- `buffer_flush(id)`; a round frees a slot, so `buff_size` rounds are enough.
  pub buffer_flush : ℕ → Output → Output
  buffer_flush id s = flush_loop buff_size (id % buff_size) (id % buff_size) s

  pub flush_next : Output → Output
  flush_next s = elim s.next_chunk [ none ↦ s | some id ↦ buffer_flush id s ]

  -- A chunk that never came: reported as lost, under the id and time of the chunk at hand.
  pub lose : Chunk → Output → Output
  lose c s = record s {
    reports = playout c.id false c.timestamp ∷ s.reports;
    next_chunk = Option.map suc s.next_chunk;
  }

  -- `for (i = next_chunk; i <= c->id - buff_size; i++)`, by the rounds left.
  pub skip : Chunk → ℕ → ℕ → Output → Output
  skip c zero i s = s
  skip c (suc rounds) i s = elim (slot s.buff (i % buff_size)) [
    | some d ↦ skip c rounds (suc i) (buffer_free (i % buff_size) d s)
    | none ↦ skip c rounds (suc i) (lose c s)
  ]

  -- `if (c->id >= next_chunk + buff_size)`: play out or give up what is too old.
  pub make_room : Chunk → Output → Output
  make_room c s = elim s.next_chunk [
    | none ↦ s
    | some next ↦
        let room = flush_next (skip c (c.id + 1 - buff_size - next) next s) in
        if leb (next + buff_size) c.id then room else s
  ]

  pub passed : Chunk → Output → Output
  passed c s =
      let s' = play c s in
      record s' {
        reports = playout c.id true c.timestamp ∷ s'.reports;
        next_chunk = Option.map suc s'.next_chunk;
      }

  -- The chunk that is next in order is played at once, and what waited behind it.
  pub pass_on : Chunk → Output → Output
  pass_on c s = flush_next (passed c s)

  pub store : Chunk → Output → Delivery
  store c s = elim (slot s.buff (c.id % buff_size)) [
    | some d ↦
        if d.id == c.id then delivered (record s { reports = duplicate ∷ s.reports }) else crash
    | none ↦ delivered (record s { buff = set s.buff (c.id % buff_size) (some c) })
  ]

  abbrev is_next : Option ℕ → ℕ → Bool
  is_next none id = false
  is_next (some next) id = id == next

  abbrev is_late : Option ℕ → ℕ → Bool
  is_late none id = false
  is_late (some next) id = ltb id next

  pub place : Chunk → Output → Delivery
  place c s = if is_next s.next_chunk c.id then delivered (pass_on c s) else store c s

  -- The first chunk sets where playing begins.
  pub start_at : ℕ → Output → Output
  start_at id s = elim s.next_chunk [ none ↦ record s { next_chunk = some id } | some next ↦ s ]

  -- `if (!reorder) chunk_write(out, c)`
  pub arrive : Chunk → Output → Output
  unfolding chunk_write
  arrive c s = if reorder then s else chunk_write c s

  pub output_deliver : Chunk → Output → Delivery
  output_deliver c s0 =
      let s = arrive c s0 in
      if is_late s.next_chunk c.id then delivered s else place c (make_room c (start_at c.id s))

  -- The chunks of a session, in order of arrival.
  pub deliver_all : List Chunk → Output → Delivery
  deliver_all [] s = delivered s
  deliver_all (c ∷ cs) s = elim (output_deliver c s) [
    | delivered s' ↦ deliver_all cs s'
    | crash ↦ crash
  ]
