-- ===== src/Output/Playout.antt =====
-- What output-grapes.c promises to the stream's viewer: order, no loss in the window, no crash.
use streamers.Common.{
  ℕ, zero, suc, ◌+◌, ◌%◌, ◌<◌, ◌≡◌, refl, sym, ap, ◌∙◌, set, ◌⊎◌, inl, inr, true, false, Option,
  none, some, List, [], ◌∷◌, ◌++◌, map, arith, length, ◌==◌, Bool-cases, Option-cases, All,
  All-mono,
}
use mathlib.Core.Path.{subst}
use mathlib.Core.List.{append_assoc, Mem, mem-cons_self, mem-cons_of_mem}
use streamers.Chunk.{Chunk}
use streamers.Output.{
  chunk_write, OutputConfig, Output, Report, playout, duplicate, delivered, slot, arrive,
  buffer_free, flush_loop, buffer_flush, flush_next, passed, pass_on, store, place, make_room,
  start_at, output_deliver, deliver_all, output_init,
}
use streamers.Output.Invariant.{Falls, playouts, played_ids, play_frame}
use streamers.Output.Session.{Running, session}

All-Mem : (cs : List Chunk) → All (λ d. Mem d cs) cs
All-Mem [] = tt
All-Mem (c ∷ cs) = (mem-cons_self, All-mono cs (λ d m. mem-cons_of_mem c m) (All-Mem cs))

module _ (cfg : OutputConfig) (pos : 0 < cfg.buff_size) (c : Chunk) (cs : List Chunk) where
  played :
      (s : Output) × (deliver_all cfg (c ∷ cs) (output_init cfg.buff_size) ≡ delivered s)
      × Running cfg (λ d. Mem d (c ∷ cs)) c.id s
  played = session cfg (λ d. Mem d (c ∷ cs)) c cs pos (All-Mem (c ∷ cs))

  -- Whatever chunks arrive, in whatever order, and at least one: no delivery reaches the
  -- `exit(-1)` of a slot in use. The buffer keeps its size, and every chunk that waits came in, and
  -- stands in the slot of its id.
  pub deliver_all-delivered :
      (s : Output) × (deliver_all cfg (c ∷ cs) (output_init cfg.buff_size) ≡ delivered s)
      × (length s.buff ≡ cfg.buff_size)
      × ((i : ℕ) (d : Chunk) → slot s.buff i ≡ some d → (d.id % cfg.buff_size ≡ i) × Mem d (c ∷ cs))
  deliver_all-delivered =
      let (s, e, r) = played in
      (s, e, sym r.inv.size, λ i d h. ((r.inv.window i d h).0, r.inv.held i d h))

  -- With reordering on, the session ends with the ids of the written chunks in strictly rising
  -- order of writing (`written` has the latest first), and every chunk written is one that came in.
  pub written_in_order :
      cfg.reorder ≡ true
      → (s : Output) × (bound : ℕ) × (deliver_all cfg (c ∷ cs) (output_init cfg.buff_size)
          ≡ delivered s)
        × Falls bound s.written
        × All (λ d. Mem d (c ∷ cs)) s.written
  written_in_order o = let (s, e, r) = played in (s, r.next, e, r.inv.log.falls o, r.inv.log.source)

  -- With reordering on and no range of ids set, the ids written are exactly those reported as
  -- played, in the same order.
  pub written_is_reported :
      cfg.reorder ≡ true
      → cfg.start_id ≡ none
      → cfg.end_id ≡ none
      → (s : Output) × (deliver_all cfg (c ∷ cs) (output_init cfg.buff_size) ≡ delivered s)
        × (map (λ d. d.id) s.written ≡ played_ids s.reports)
  written_is_reported o e1 e2 = let (s, e, r) = played in (s, e, r.inv.log.told o e1 e2)

  -- Once a session has begun with chunk `c`, the next id to play is the id of `c` and as many more as there were
  -- reports of a chunk played or lost: the reports are as many as the ids that `next_chunk` went past.
  pub next_id_counted :
      (s : Output) × (next : ℕ) × (deliver_all cfg (c ∷ cs) (output_init cfg.buff_size)
        ≡ delivered s)
      × (s.next_chunk ≡ some next)
      × (c.id + playouts s.reports ≡ next)
  next_id_counted = let (s, e, r) = played in (s, r.next, e, r.inv.next_is, r.inv.counted)

-- The ids reported as lost.
abbrev pub losses : List Report → ℕ
losses [] = 0
losses (playout id true t ∷ rs) = losses rs
losses (playout id false t ∷ rs) = suc (losses rs)
losses (duplicate ∷ rs) = losses rs

-- The slots are emptied one after the other, each of a chunk that waits in it, which is written or left out; nothing
-- else happens to the buffer, and nothing else is written. What is written is newest first.
abbrev pub Drains :
    List ℕ → List (Option Chunk) → (written : List Chunk) → List (Option Chunk) → Type 0
Drains [] buff written buff' = (buff' ≡ buff) × (written ≡ [])
Drains (i ∷ slots) buff written buff' =
    (d : Chunk) × (later : List Chunk) × (slot buff i ≡ some d)
    × ((written ≡ later ++ (d ∷ [])) ⊎ (written ≡ later))
    × Drains slots (set buff i none) later buff'

module _ (cfg : OutputConfig) where
  -- The chunks written between two states, newest first, and no loss reported; the slots, oldest first, that gave
  -- them.
  record Lossless (s t : Output) : Type 0 where
    same : losses t.reports ≡ losses s.reports
    more : List Chunk
    grown : t.written ≡ more ++ s.written
    slots : List ℕ
    drained : Drains slots s.buff more t.buff

  -- Slot `i` is emptied first, and what follows is a flush.
  free_then :
      (i : ℕ) (c : Chunk) (s t : Output)
      → slot s.buff i ≡ some c
      → Lossless (buffer_free cfg i c s) t
      → Lossless s t
  unfolding buffer_free
  free_then i c s t e f =
      let (same_buff, same_next, same_reports, put) = play_frame cfg c s in
      let drained : Drains f.slots (set s.buff i none) f.more t.buff =
        subst (λ b. Drains f.slots (set b i none) f.more t.buff) same_buff f.drained in
      let same : losses t.reports ≡ losses s.reports = f.same ∙ ap losses same_reports in
      elim put [
        | inl kept ↦ record {
          same = same;
          more = f.more;
          grown = f.grown ∙ ap (λ ws. f.more ++ ws) kept;
          slots = i ∷ f.slots;
          drained = (c, f.more, e, inr refl, drained);
        }
        | inr wrote ↦ record {
          same = same;
          more = f.more ++ (c ∷ []);
          grown =
              f.grown
              ∙ ap (λ ws. f.more ++ ws) wrote
              ∙ sym (append_assoc f.more (c ∷ []) s.written);
          slots = i ∷ f.slots;
          drained = (c, f.more, e, inl refl, drained);
        }
      ]

  Lossless-refl : (s : Output) → Lossless s s
  Lossless-refl s = record {
    same = refl;
    more = [];
    grown = refl;
    slots = [];
    drained = (refl, refl);
  }

  flush_loop-Lossless : (fuel i0 i : ℕ) (s : Output) → Lossless s (flush_loop cfg fuel i0 i s)
  unfolding flush_loop
  flush_loop-Lossless zero i0 i s = Lossless-refl s
  flush_loop-Lossless (suc fuel) i0 i s = elim (Option-cases (slot s.buff i)) [
    | inl e ↦ rw (e, flush_loop) (Lossless-refl s)
    | inr (c, e) ↦
        let i' = suc i % cfg.buff_size in
        let s' = buffer_free cfg i c s in
        elim (Bool-cases (i' == i0)) [
          | inl back ↦ rw (e, flush_loop, back) (free_then i c s s' e (Lossless-refl s'))
          | inr on ↦
              rw (e, flush_loop, on) (free_then i c s _ e (flush_loop-Lossless fuel i0 i' s'))
        ]
  ]

  flush_next-Lossless : (s : Output) → Lossless s (flush_next cfg s)
  unfolding flush_next buffer_flush
  flush_next-Lossless s = elim (Option-cases s.next_chunk) [
    | inl e ↦ simp (e, flush_next) (Lossless-refl s)
    | inr (next, e) ↦ simp (e, flush_next) (flush_loop-Lossless _ _ _ s)
  ]

  passed_frame :
      (c : Chunk) (s : Output)
      → (losses (passed cfg c s).reports ≡ losses s.reports) × ((passed cfg c s).buff ≡ s.buff)
  unfolding passed
  passed_frame c s =
      let (same_buff, same_next, same_reports, put) = play_frame cfg c s in
      (ap losses same_reports, same_buff)

  store-Lossless :
      (c : Chunk) (s s' : Output)
      → store cfg c s ≡ delivered s'
      → losses s'.reports ≡ losses s.reports
  unfolding store
  store-Lossless c s s' e = ground arith

  losses-pass_on : (c : Chunk) (s : Output) → losses (pass_on cfg c s).reports ≡ losses s.reports
  unfolding pass_on
  losses-pass_on c s = (flush_next-Lossless (passed cfg c s)).same ∙ (passed_frame c s).0

  place-Lossless :
      (c : Chunk) (s s' : Output)
      → place cfg c s ≡ delivered s'
      → losses s'.reports ≡ losses s.reports
  unfolding place
  place-Lossless c s s' e = ground (arith, losses-pass_on c s, store-Lossless c s s')

  make_room_near :
      (c : Chunk) (s : Output) (next : ℕ)
      → s.next_chunk ≡ some next
      → c.id < next + cfg.buff_size
      → make_room cfg c s ≡ s
  unfolding make_room
  make_room_near c s next e h = ground arith

  arrive_frame :
      (c : Chunk) (s : Output)
      → ((arrive cfg c s).next_chunk ≡ s.next_chunk) × ((arrive cfg c s).reports ≡ s.reports)
  unfolding arrive chunk_write
  arrive_frame c s = ground arith

  deliver_near :
      (c : Chunk) (s : Output) (next : ℕ)
      → s.next_chunk ≡ some next
      → c.id < next + cfg.buff_size
      → (output_deliver cfg c s ≡ delivered (arrive cfg c s))
        ⊎ (output_deliver cfg c s ≡ place cfg c (arrive cfg c s))
  unfolding output_deliver start_at
  deliver_near c s next e h =
      let known = (arrive_frame c s).0 ∙ e in
      ground (arith, make_room_near c (arrive cfg c s) next known h)

  -- No chunk is given up by a delivery within the window: while the chunk's id is less than
  -- `buff_size` ahead of the next one to play, the number of ids reported as lost stays.
  pub losses_in_window :
      (c : Chunk) (s s' : Output) (next : ℕ)
      → s.next_chunk ≡ some next
      → c.id < next + cfg.buff_size
      → output_deliver cfg c s ≡ delivered s'
      → losses s'.reports ≡ losses s.reports
  losses_in_window c s s' next e h d = elim (deliver_near c s next e h) [
    | inl late ↦ ground (arith, arrive_frame c s)
    | inr placed ↦
        place-Lossless c (arrive cfg c s) s' (sym placed ∙ d) ∙ ap losses ((arrive_frame c s).1)
  ]
