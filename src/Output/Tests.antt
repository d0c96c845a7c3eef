-- ===== src/Output/Tests.antt =====
-- Runs of the output buffer of output-grapes.c.
use mathlib.Core.List.{Mem}
use streamers.Common.{
  ℕ, ◌+◌, ◌*◌, ◌%◌, ◌≡◌, refl, true, false, none, some, List, [], ◌∷◌, map, arith, length, All,
}
use streamers.Chunk.{Chunk, absent}
use streamers.Output.{
  OutputConfig, Output, Delivery, delivered, crash, slot, chunk_write, play, buffer_free,
  flush_loop, buffer_flush, flush_next, lose, skip, make_room, passed, pass_on, store, place,
  start_at, arrive, output_deliver, deliver_all, output_init,
}
use streamers.Output.Invariant.{Falls, playouts, played_ids}
use streamers.Output.Playout.{
  deliver_all-delivered, written_in_order, written_is_reported, next_id_counted,
}

abbrev config : OutputConfig
config = record { buff_size = 4; reorder = true; start_id = none; end_id = none }

abbrev chunk : ℕ → Chunk
chunk i = record { id = i; timestamp = i * 10; payload = i ∷ []; attributes = absent }

-- Chunk 8 never comes: 12 pushes the window over it, and 9 and 10, which waited, are played.
abbrev arrivals : List Chunk
arrivals = chunk 7 ∷ chunk 6 ∷ chunk 10 ∷ chunk 9 ∷ chunk 9 ∷ chunk 12 ∷ []

abbrev written_ids : Delivery → List ℕ
written_ids (delivered s) = map (λ c. c.id) s.written
written_ids crash = []

played_run :
    written_ids (deliver_all config (chunk 5 ∷ arrivals) (output_init 4)) ≡ 10 ∷ 9 ∷ 7 ∷ 6 ∷ 5 ∷ []
unfolding output_deliver deliver_all output_init chunk_write play buffer_free flush_loop
    buffer_flush flush_next lose skip make_room passed pass_on store place start_at arrive
played_run = refl

deliver_all-delivered_example :
    (s : Output) × (deliver_all config (chunk 5 ∷ arrivals) (output_init 4) ≡ delivered s)
    × (length s.buff ≡ 4)
    × ((i : ℕ) (d : Chunk) → slot s.buff i ≡ some d → (d.id % 4 ≡ i) × Mem d (chunk 5 ∷ arrivals))
deliver_all-delivered_example = deliver_all-delivered config (omega arith) (chunk 5) arrivals

written_in_order_example :
    (s : Output) × (bound : ℕ) × (deliver_all config (chunk 5 ∷ arrivals) (output_init 4)
      ≡ delivered s)
    × Falls bound s.written
    × All (λ d. Mem d (chunk 5 ∷ arrivals)) s.written
written_in_order_example = written_in_order config (omega arith) (chunk 5) arrivals refl

written_is_reported_example :
    (s : Output) × (deliver_all config (chunk 5 ∷ arrivals) (output_init 4) ≡ delivered s)
    × (map (λ d. d.id) s.written ≡ played_ids s.reports)
written_is_reported_example =
    written_is_reported config (omega arith) (chunk 5) arrivals refl refl refl

next_id_counted_example :
    (s : Output) × (next : ℕ) × (deliver_all config (chunk 5 ∷ arrivals) (output_init 4)
      ≡ delivered s)
    × (s.next_chunk ≡ some next)
    × (5 + playouts s.reports ≡ next)
next_id_counted_example = next_id_counted config (omega arith) (chunk 5) arrivals

-- Chunks 6 and 7 wait while 5 is missing.
abbrev waiting : Output
waiting = record {
  buff = none ∷ none ∷ some (chunk 6) ∷ some (chunk 7) ∷ [];
  next_chunk = some 5;
  last_chunk = some 4;
  sflag = true;
  eflag = false;
  written = chunk 4 ∷ [];
  reports = [];
}
