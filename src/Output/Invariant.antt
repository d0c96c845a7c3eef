-- ===== src/Output/Invariant.antt =====
-- What output-grapes.c keeps true of its state, step by step.
use streamers.Common.{
  ℕ, zero, suc, ◌+◌, ◌%◌, ◌≤◌, ◌<◌, ◌≡◌, sym, ap, ◌∙◌, ◌⊎◌, inl, inr, true, false, Option, none,
  some, List, [], ◌∷◌, map, All, arith, length, length-set, set, get_or-set_self,
  get_or-set_default, ◌==◌, Bool-cases, Option-cases, ==_iff, suc-mod,
}
use native.Mathlib.Nat.{mod-lt, add-zero}
use mathlib.Core.Path.{subst}
use streamers.Chunk.{Chunk}
use streamers.Output.{
  chunk_write, OutputConfig, Output, Report, playout, duplicate, slot, play, buffer_free,
  flush_loop, lose, skip,
}
use streamers.Output.Window.{
  Window, Window-next, Window-free, Window-lose, occupied, occupied-free, slot_of_none, Under,
  Under-free,
}

-- The ids of the list, the latest first, fall, and stay under the bound.
abbrev pub Falls : ℕ → List Chunk → Type 0
Falls bound [] = Unit {0}
Falls bound (c ∷ cs) = (c.id < bound) × Falls c.id cs

pub Falls-mono : (m n : ℕ) (cs : List Chunk) → m ≤ n → Falls m cs → Falls n cs
Falls-mono m n [] h f = tt
Falls-mono m n (c ∷ cs) h f = (omega arith, f.1)

-- How many ids were reported as played or lost.
abbrev pub playouts : List Report → ℕ
playouts [] = 0
playouts (playout id b t ∷ rs) = suc (playouts rs)
playouts (duplicate ∷ rs) = playouts rs

-- The ids reported as played, the latest first.
abbrev pub played_ids : List Report → List ℕ
played_ids [] = []
played_ids (playout id true t ∷ rs) = id ∷ played_ids rs
played_ids (playout id false t ∷ rs) = played_ids rs
played_ids (duplicate ∷ rs) = played_ids rs

-- What was written and reported, when `next` is the next id: the writing is in order, of chunks
-- with `P`, and without a range of ids it is what was reported as played.
pub record Log (cfg : OutputConfig) (P : Chunk → Type 0) (next : ℕ) (ws : List Chunk)
    (rs : List Report) : Type 0 where
  pub falls : cfg.reorder ≡ true → Falls next ws
  pub source : All P ws
  pub told :
      cfg.reorder ≡ true
      → cfg.start_id ≡ none
      → cfg.end_id ≡ none
      → map (λ c. c.id) ws ≡ played_ids rs

-- The state between any two steps, when `next` is the next id to play and playing began at `first`.
pub record Inv (cfg : OutputConfig) (P : Chunk → Type 0) (first next : ℕ) (s : Output)
    : Type 0 where
  pub next_is : s.next_chunk ≡ some next
  pub pos : 0 < cfg.buff_size
  pub size : cfg.buff_size ≡ length s.buff
  pub window : Window cfg.buff_size next s.buff
  pub counted : first + playouts s.reports ≡ next
  pub log : Log cfg P next s.written s.reports
  pub held : (i : ℕ) (c : Chunk) → slot s.buff i ≡ some c → P c

module _ (cfg : OutputConfig) where
  open cfg use {buff_size as n}

  -- `play` writes at most the chunk at hand, and leaves the buffer and the counts alone.
  pub play_frame :
      (c : Chunk) (s : Output)
      → ((play cfg c s).buff ≡ s.buff)
        × ((play cfg c s).next_chunk ≡ s.next_chunk)
        × ((play cfg c s).reports ≡ s.reports)
        × (((play cfg c s).written ≡ s.written) ⊎ ((play cfg c s).written ≡ c ∷ s.written))
  unfolding play
  play_frame c s = ground arith

  -- With no range of ids, and in reordering, it writes the chunk.
  play-told :
      (c : Chunk) (s : Output)
      → cfg.reorder ≡ true
      → cfg.start_id ≡ none
      → cfg.end_id ≡ none
      → (play cfg c s).written ≡ c ∷ s.written
  unfolding play chunk_write
  play-told c s o e1 e2 = ground arith

module _ (cfg : OutputConfig) (P : Chunk → Type 0) where
  open cfg use {buff_size as n}

  pub play-Log :
      (next : ℕ) (c : Chunk) (s : Output) (rs : List Report)
      → c.id ≡ next
      → P c
      → Log cfg P next s.written rs
      → Log cfg P (suc next) (play cfg c s).written (playout c.id true c.timestamp ∷ rs)
  play-Log next c s rs e pc l = record {
    falls = λ o. elim ((play_frame cfg c s).3) [
      | inl same ↦ rw same (Falls-mono next (suc next) s.written (omega arith) (l.falls o))
      | inr more ↦ rw more (omega arith, Falls-mono next c.id s.written (omega arith) (l.falls o))
    ];
    source = elim ((play_frame cfg c s).3) [
      | inl same ↦ rw same l.source
      | inr more ↦ rw more (pc, l.source)
    ];
    told = λ o e1 e2. rw (play-told cfg c s o e1 e2) (ap (λ ids. c.id ∷ ids) (l.told o e1 e2));
  }

  lose-Log :
      (next id t : ℕ) (ws : List Chunk) (rs : List Report)
      → Log cfg P next ws rs
      → Log cfg P (suc next) ws (playout id false t ∷ rs)
  lose-Log next id t ws rs l = record {
    falls = λ o. Falls-mono next (suc next) ws (omega arith) (l.falls o);
    source = l.source;
    told = l.told;
  }

  held-free :
      (i : ℕ) (buff : List (Option Chunk))
      → ((j : ℕ) (c : Chunk) → slot buff j ≡ some c → P c)
      → (j : ℕ) (c : Chunk) → slot (set buff i none) j ≡ some c
      → P c
  held-free i buff h j c e = elim (get_or-set_default buff i j none) [
    | inl gone ↦ absurd (cc)
    | inr kept ↦ h j c (sym kept ∙ e)
  ]

  module _ (first next : ℕ) (c : Chunk) (s : Output) (v : Inv cfg P first next s) where
    free-Inv :
        slot s.buff (next % n) ≡ some c
        → Inv cfg P first (suc next) (buffer_free cfg (next % n) c s)
    unfolding buffer_free
    free-Inv e =
        let same = Window-next n next s.buff v.window c e in
        let (b, k, r, w) = play_frame cfg c s in
        record {
          next_is = ground arith;
          pos = v.pos;
          size = rw (b, length-set s.buff (next % n) none) v.size;
          window = rw b (Window-free n next s.buff v.window v.pos v.size);
          counted = omega (arith, v.counted, ap playouts r);
          log =
              subst
                (λ rs.
                  Log cfg P (suc next) (play cfg c s).written (playout c.id true c.timestamp ∷ rs))
                (sym r) (play-Log next c s s.reports same (v.held (next % n) c e) v.log);
          held = rw b (held-free (next % n) s.buff v.held);
        }

    lose-Inv : slot s.buff (next % n) ≡ none → Inv cfg P first (suc next) (lose cfg c s)
    unfolding lose
    lose-Inv e = record {
      next_is = rw v.next_is;
      pos = v.pos;
      size = v.size;
      window = Window-lose n next s.buff v.window e;
      counted = omega (arith, v.counted);
      log = lose-Log next c.id c.timestamp s.written s.reports v.log;
      held = v.held;
    }

  pub skip-Inv :
      (first : ℕ) (c : Chunk) (rounds i : ℕ) (s : Output)
      → Inv cfg P first i s
      → Inv cfg P first (i + rounds) (skip cfg c rounds i s)
  unfolding skip
  skip-Inv first c zero i s v = rw add-zero v
  skip-Inv first c (suc rounds) i s v = elim (Option-cases (slot s.buff (i % n))) [
    | inl e ↦
        rw (e, skip, shift)
          (skip-Inv first c rounds (suc i) (lose cfg c s) (lose-Inv first i c s v e))
    | inr (d, e) ↦
        rw (e, skip, shift)
          (skip-Inv first c rounds (suc i) (buffer_free cfg (i % n) d s) (free-Inv first i d s v e))
  ]
    where
      shift : i + suc rounds ≡ suc i + rounds
      shift = omega arith

  buffer_free-Under :
      (high i : ℕ) (c : Chunk) (s : Output)
      → Under high s.buff
      → Under high (buffer_free cfg i c s).buff
  unfolding buffer_free
  buffer_free-Under high i c s u = rw ((play_frame cfg c s).0) (Under-free high s.buff i u)

  pub skip-Under :
      (high : ℕ) (c : Chunk) (rounds i : ℕ) (s : Output)
      → Under high s.buff
      → Under high (skip cfg c rounds i s).buff
  unfolding skip
  skip-Under high c zero i s u = u
  skip-Under high c (suc rounds) i s u = elim (Option-cases (slot s.buff (i % n))) [
    | inl e ↦ rw (e, skip) (skip-Under high c rounds (suc i) (lose cfg c s) (unfold lose in u))
    | inr (d, e) ↦
        rw (e, skip)
          (skip-Under high c rounds (suc i) (buffer_free cfg (i % n) d s)
            (buffer_free-Under high (i % n) d s u))
  ]

  -- A state whose next id is from `low` to `high`, with nothing waiting that could be played.
  abbrev pub Settled : ℕ → ℕ → ℕ → Output → Type 0
  Settled first low high s =
      (next : ℕ) × (low ≤ next)
      × (next ≤ high)
      × Inv cfg P first next s
      × (slot s.buff (next % n) ≡ none)

  occupied-buffer_free :
      (i : ℕ) (c : Chunk) (s : Output)
      → slot s.buff i ≡ some c
      → occupied s.buff ≡ suc (occupied (buffer_free cfg i c s).buff)
  unfolding buffer_free
  occupied-buffer_free i c s e = rw ((play_frame cfg c s).0) (occupied-free s.buff i c e)

  buffer_free-gap :
      (i j : ℕ) (c : Chunk) (s : Output)
      → i < length s.buff
      → (i ≡ j) ⊎ (slot s.buff j ≡ none)
      → slot (buffer_free cfg i c s).buff j ≡ none
  unfolding buffer_free
  buffer_free-gap i j c s h (inl e) =
      rw ((play_frame cfg c s).0, ← e) (get_or-set_self s.buff i none none h)
  buffer_free-gap i j c s h (inr e) =
      rw ((play_frame cfg c s).0)
        (elim (get_or-set_default s.buff i j none) [ inl gone ↦ gone | inr kept ↦ kept ∙ e ])

  -- The loop ends with the slot of the next id empty: by its test, by going round, and never for
  -- want of fuel, since each round frees a slot.
  pub flush_loop-Settled :
      (first high fuel i0 i next : ℕ) (s : Output)
      → i ≡ next % n
      → Inv cfg P first next s
      → occupied s.buff ≤ fuel
      → (i ≡ i0) ⊎ (slot s.buff i0 ≡ none)
      → next ≤ high
      → Under high s.buff
      → Settled first next high (flush_loop cfg fuel i0 i s)
  unfolding flush_loop
  flush_loop-Settled first high zero i0 i next s at v few seen top u =
      (next, omega arith, top, v, slot_of_none s.buff (next % n) (omega arith))
  flush_loop-Settled first high (suc fuel) i0 i next s at v few seen top u =
      elim (Option-cases (slot s.buff i)) [
        | inl e ↦ rw (e, flush_loop) (next, omega arith, top, v, rw (← at) e)
        | inr (c, e) ↦
            let s' = buffer_free cfg i c s in
            let v' : Inv cfg P first (suc next) s' =
              rw at (free-Inv first next c s v (sym (ap (slot s.buff) at) ∙ e)) in
            let top' : suc next ≤ high = omega (
              arith,
              u i c e,
              Window-next n next s.buff v.window c (sym (ap (slot s.buff) at) ∙ e),
            ) in
            let at' : suc i % n ≡ suc next % n = rw at (suc-mod n next) in
            let gap : slot s'.buff i0 ≡ none =
              buffer_free-gap i i0 c s (rw at (omega (arith, v.size, mod-lt next v.pos))) seen in
            let (m, le, hm, vm, gm) =
              flush_loop-Settled first high fuel i0 (suc i % n) (suc next) s' at' v'
                (omega (arith, occupied-buffer_free i c s e)) (inr gap) top'
                (buffer_free-Under high i c s u) in
            elim (Bool-cases (suc i % n == i0)) [
              | inl back ↦
                  rw (e, flush_loop, back)
                    (
                      suc next,
                      omega arith,
                      top',
                      v',
                      ap (slot s'.buff) (sym at' ∙ (==_iff (suc i % n) i0).0 back) ∙ gap,
                    )
              | inr on ↦ rw (e, flush_loop, on) (m, omega arith, hm, vm, gm)
            ]
      ]
