-- ===== src/Output/Session.antt =====
-- A session of the output buffer: any chunks, in any order, from the start.
use streamers.Common.{
  ℕ, ◌%◌, ◌≤◌, ◌<◌, ◌≡◌, refl, sym, inl, inr, true, false, none, some, List, [], ◌∷◌, arith, length,
  length-replicate, get_or-replicate, Bool-cases, All,
}
use native.Mathlib.Nat.{add-zero}
use native.Mathlib.Decide.{dec_lt}
use mathlib.Core.Path.{subst}
use streamers.Chunk.{Chunk}
use streamers.Output.{
  chunk_write, OutputConfig, Output, delivered, slot, arrive, make_room, place, start_at,
  output_deliver, deliver_all, output_init, is_late,
}
use streamers.Output.Invariant.{Inv}
use streamers.Output.Deliver.{make_room-Roomy, place-Delivers, Delivers}

module _ (cfg : OutputConfig) (P : Chunk → Type 0) where
  open cfg use {buff_size as n}

  -- Before the first chunk.
  pub record Fresh (s : Output) : Type 0 where
    pub unset : s.next_chunk ≡ none
    pub pos : 0 < n
    pub size : n ≡ length s.buff
    pub empty : (i : ℕ) → slot s.buff i ≡ none
    pub unreported : s.reports ≡ []
    pub unwritten : s.written ≡ []

  -- Before the first chunk is placed; without reordering it is written already.
  record Begun (s : Output) : Type 0 where
    unset : s.next_chunk ≡ none
    pos : 0 < n
    size : n ≡ length s.buff
    empty : (i : ℕ) → slot s.buff i ≡ none
    unreported : s.reports ≡ []
    unwritten : cfg.reorder ≡ true → s.written ≡ []
    source : All P s.written

  arrive-Begun : (c : Chunk) (s : Output) → P c → Fresh s → Begun (arrive cfg c s)
  unfolding arrive chunk_write
  arrive-Begun c s pc f = elim (Bool-cases cfg.reorder) [
    | inl yea ↦
        rw (yea, arrive)
          record {
            unset = f.unset;
            pos = f.pos;
            size = f.size;
            empty = f.empty;
            unreported = f.unreported;
            unwritten = λ o. f.unwritten;
            source = rw f.unwritten tt;
          }
    | inr nay ↦
        rw (nay, arrive)
          record {
            unset = f.unset;
            pos = f.pos;
            size = f.size;
            empty = f.empty;
            unreported = f.unreported;
            unwritten = λ o. absurd (cc);
            source = (pc, rw f.unwritten tt);
          }
  ]

  arrive-Inv :
      (first next : ℕ) (c : Chunk) (s : Output)
      → P c
      → Inv cfg P first next s
      → Inv cfg P first next (arrive cfg c s)
  unfolding arrive chunk_write
  arrive-Inv first next c s pc v = elim (Bool-cases cfg.reorder) [
    | inl yea ↦ simp (yea, arrive) v
    | inr nay ↦
        rw (nay, arrive)
          record {
            next_is = v.next_is;
            pos = v.pos;
            size = v.size;
            window = v.window;
            counted = v.counted;
            log = record {
              falls = λ o. absurd (cc);
              source = (pc, v.log.source);
              told = λ o. absurd (cc);
            };
            held = v.held;
          }
  ]

  arrive-buff : (c : Chunk) (s : Output) → (arrive cfg c s).buff ≡ s.buff
  unfolding arrive chunk_write
  arrive-buff c s = ground arith

  start_at-Inv :
      (c : Chunk) (s : Output) → Begun s → P c → Inv cfg P c.id c.id (start_at cfg c.id s)
  unfolding start_at
  start_at-Inv c s f pc =
      simp (f.unset, start_at)
        record {
          next_is = refl;
          pos = f.pos;
          size = f.size;
          window = λ i d e. absurd (cc (f.empty i));
          counted = rw (f.unreported) (add-zero c.id);
          log = record {
            falls = λ o. rw (f.unwritten o) tt;
            source = f.source;
            told = λ o e1 e2. rw (f.unwritten o, f.unreported);
          };
          held = λ i d e. absurd (cc (f.empty i));
        }

  start_at-buff : (id : ℕ) (s : Output) → (start_at cfg id s).buff ≡ s.buff
  unfolding start_at
  start_at-buff id s = ground arith

  start_at_known : (id next : ℕ) (s : Output) → s.next_chunk ≡ some next → start_at cfg id s ≡ s
  unfolding start_at
  start_at_known id next s e = ground arith

  room_lem :
      (first next : ℕ) (c : Chunk) (s : Output)
      → Inv cfg P first next s
      → slot s.buff (next % n) ≡ none
      → next ≤ c.id
      → P c
      → Delivers cfg P first c next (place cfg c (make_room cfg c s))
  room_lem first next c s v gap late pc =
      let (m, lo, room) = make_room-Roomy cfg P first c next s v gap late in
      let (s', m', e, lo', v', gap', k) =
        place-Delivers cfg P first c m (make_room cfg c s) room pc in
      (s', m', e, omega arith, v', gap', k)

  late_lem :
      (c : Chunk) (s : Output) (next : ℕ)
      → (arrive cfg c s).next_chunk ≡ some next
      → c.id < next
      → output_deliver cfg c s ≡ delivered (arrive cfg c s)
  unfolding output_deliver
  late_lem c s next e h = ground arith

  new_lem :
      (c : Chunk) (s : Output)
      → is_late cfg (arrive cfg c s).next_chunk c.id ≡ false
      → output_deliver cfg c s ≡ place cfg c (make_room cfg c (start_at cfg c.id (arrive cfg c s)))
  unfolding output_deliver
  new_lem c s e = rw (e, output_deliver)

  -- A chunk that comes when the next id is known.
  pub deliver_running :
      (first next : ℕ) (c : Chunk) (s : Output)
      → Inv cfg P first next s
      → slot s.buff (next % n) ≡ none
      → P c
      → Delivers cfg P first c next (output_deliver cfg c s)
  deliver_running first next c s v gap pc =
      let s1 = arrive cfg c s in
      let v1 : Inv cfg P first next s1 = arrive-Inv first next c s pc v in
      let gap1 : slot s1.buff (next % n) ≡ none = rw (arrive-buff c s) gap in
      elim (dec_lt c.id next) [
        | yes late ↦ (s1, next, late_lem c s next v1.next_is late, omega arith, v1, gap1, inl late)
        | no new ↦
            let open_ : is_late cfg s1.next_chunk c.id ≡ false = rw (v1.next_is) (ground arith) in
            subst (Delivers cfg P first c next) (sym (new_lem c s open_)) (
              rw (start_at_known c.id next s1 v1.next_is)
                (room_lem first next c s1 v1 gap1 (omega arith) pc))
      ]

  -- The first chunk.
  pub deliver_first :
      (c : Chunk) (s : Output) → Fresh s → P c → Delivers cfg P c.id c c.id (output_deliver cfg c s)
  deliver_first c s f pc =
      let s1 = arrive cfg c s in
      let b : Begun s1 = arrive-Begun c s pc f in
      subst (Delivers cfg P c.id c c.id) (sym (new_lem c s (rw (b.unset) refl))) (
        room_lem c.id c.id c (start_at cfg c.id s1) (start_at-Inv c s1 b pc)
          (rw (start_at-buff c.id s1) (b.empty (c.id % n))) (omega arith) pc)

  init-Fresh : 0 < n → Fresh (output_init n)
  unfolding output_init
  init-Fresh pos = record {
    unset = refl;
    pos = pos;
    size = sym (length-replicate n none);
    empty = λ i. get_or-replicate n i none;
    unreported = refl;
    unwritten = refl;
  }

  -- A state between two chunks of a session, once playing has begun.
  pub record Running (first : ℕ) (s : Output) : Type 0 where
    pub next : ℕ
    pub inv : Inv cfg P first next s
    pub gap : slot s.buff (next % n) ≡ none

  pub run_session :
      (first : ℕ) (cs : List Chunk) (s : Output)
      → All P cs
      → Running first s
      → (s' : Output) × (deliver_all cfg cs s ≡ delivered s') × Running first s'
  unfolding deliver_all
  run_session first [] s ps r = (s, refl, r)
  run_session first (c ∷ cs) s ps r =
      let (s1, m, e, lo, v, gap, k) = deliver_running first r.next c s r.inv r.gap ps.0 in
      rw (e, deliver_all) (run_session first cs s1 ps.1 (record { next = m; inv = v; gap = gap }))

  -- A session of one chunk or more ends, and the state it leaves is sound.
  pub session :
      (c : Chunk) (cs : List Chunk)
      → 0 < n
      → All P (c ∷ cs)
      → (s : Output) × (deliver_all cfg (c ∷ cs) (output_init n) ≡ delivered s) × Running c.id s
  unfolding deliver_all
  session c cs pos ps =
      let (s1, m, e, lo, v, gap, k) = deliver_first c (output_init n) (init-Fresh pos) ps.0 in
      rw (e, deliver_all) (run_session c.id cs s1 ps.1 (record { next = m; inv = v; gap = gap }))
