-- ===== src/Output/Deliver.antt =====
-- One call of `output_deliver`: what it does with a chunk, and what it keeps true.
use streamers.Common.{
  ℕ, suc, ◌+◌, ◌-◌, ◌%◌, ◌≤◌, ◌<◌, ◌≡◌, refl, sym, ap, ◌∙◌, ◌≢◌, ◌⊎◌, inl, inr, true, none, some,
  ◌∷◌, arith, length-set, set, get_or-set_self, get_or-set_ne, leb, Bool-cases, Option-cases,
  ==_iff, mod_window, mod_windowed, some_inj,
}
use mathlib.Core.Path.{subst}
use native.Mathlib.Nat.{mod-lt}
use native.Mathlib.Decide.{ℕ_discrete}
use streamers.Chunk.{Chunk}
use streamers.Output.{
  OutputConfig, Output, playout, duplicate, Delivery, delivered, slot, play, buffer_flush,
  flush_next, skip, make_room, passed, pass_on, store, place,
}
use streamers.Output.Window.{Window-lose, Window-store, occupied-le-length, Under}
use streamers.Output.Invariant.{
  playouts, Log, Inv, play_frame, play-Log, skip-Inv, skip-Under, Settled, flush_loop-Settled,
}

-- What becomes of chunk `c`: its id is behind, or it waits in its slot.
abbrev pub Kept : ℕ → Chunk → ℕ → Output → Type 0
Kept n c next s = (c.id < next) ⊎ ((d : Chunk) × (slot s.buff (c.id % n) ≡ some d) × (d.id ≡ c.id))

module _ (cfg : OutputConfig) (P : Chunk → Type 0) (first : ℕ) where
  open cfg use {buff_size as n}

  pub flush_next-Settled :
      (high next : ℕ) (s : Output)
      → Inv cfg P first next s
      → next ≤ high
      → Under high s.buff
      → Settled cfg P first next high (flush_next cfg s)
  unfolding flush_next buffer_flush
  flush_next-Settled high next s v top u =
      rw (v.next_is, flush_next)
        (flush_loop-Settled cfg P first high n (next % n) (next % n) next s refl v
          (omega (arith, v.size, occupied-le-length s.buff)) (inl refl) top u)

  -- There is room for chunk `c` when the next id is `next`.
  abbrev Roomy : Chunk → ℕ → Output → Type 0
  Roomy c next s =
      (next ≤ c.id) × (c.id < next + n) × Inv cfg P first next s × (slot s.buff (next % n) ≡ none)

  pub make_room-Roomy :
      (c : Chunk) (next : ℕ) (s : Output)
      → Inv cfg P first next s
      → slot s.buff (next % n) ≡ none
      → next ≤ c.id
      → (m : ℕ) × (next ≤ m) × Roomy c m (make_room cfg c s)
  unfolding make_room
  make_room-Roomy c next s v gap late = elim (Bool-cases (leb (next + n) c.id)) [
    | inl far ↦
        let rounds = c.id + 1 - n - next in
        let (m, lo, hi, vm, gm) =
          flush_next-Settled c.id (next + rounds) (skip cfg c rounds next s)
            (skip-Inv cfg P first c rounds next s v) (ground (arith, v.pos))
            (skip-Under cfg P c.id c rounds next s (λ i d e. ground (arith, v.window i d e))) in
        rw (v.next_is, make_room, far) (m, omega arith, (hi, ground (arith, v.pos), vm, gm))
    | inr near ↦ rw (v.next_is, make_room, near) (next, omega arith, (late, ground arith, v, gap))
  ]

  abbrev pub Delivers : Chunk → ℕ → Delivery → Type 0
  Delivers c low r =
      (s : Output) × (next : ℕ) × (r ≡ delivered s)
      × (low ≤ next)
      × Inv cfg P first next s
      × (slot s.buff (next % n) ≡ none)
      × Kept n c next s

  passed-Inv :
      (c : Chunk) (next : ℕ) (s : Output)
      → c.id ≡ next
      → Inv cfg P first next s
      → slot s.buff (next % n) ≡ none
      → P c
      → Inv cfg P first (suc next) (passed cfg c s)
  unfolding passed
  passed-Inv c next s e v gap pc =
      let (b, k, r, w) = play_frame cfg c s in
      record {
        next_is = rw (k, v.next_is);
        pos = v.pos;
        size = rw b v.size;
        window = rw b (Window-lose n next s.buff v.window gap);
        counted = omega (arith, v.counted, ap playouts r);
        log =
            subst
              (λ rs.
                Log cfg P (suc next) (play cfg c s).written (playout c.id true c.timestamp ∷ rs))
              (sym r) (play-Log cfg P next c s s.reports e pc v.log);
        held = rw b v.held;
      }

  pass_on-Delivers :
      (c : Chunk) (next : ℕ) (s : Output)
      → c.id ≡ next
      → Inv cfg P first next s
      → slot s.buff (next % n) ≡ none
      → P c
      → Delivers c next (delivered (pass_on cfg c s))
  unfolding pass_on
  pass_on-Delivers c next s e v gap pc =
      let p : Inv cfg P first (suc next) (passed cfg c s) = passed-Inv c next s e v gap pc in
      let (m, lo, hi, vm, gm) =
        flush_next-Settled (suc next + n) (suc next) (passed cfg c s) p (omega arith)
          (λ i d h. (p.window i d h).2) in
      (pass_on cfg c s, m, refl, omega arith, vm, gm, inl (omega arith))

  store-Delivers :
      (c : Chunk) (next : ℕ) (s : Output)
      → Roomy c next s
      → c.id ≢ next
      → P c
      → Delivers c next (store cfg c s)
  unfolding store
  store-Delivers c next s (lo, hi, v, gap) ne pc = elim (Option-cases (slot s.buff (c.id % n))) [
    | inl e ↦
        rw (e, store) (stored, next, refl, omega arith, stored-Inv, apart, inr (c, here, refl))
    | inr (d, e) ↦
        let (at, low, high) = v.window (c.id % n) d e in
        let same : d.id ≡ c.id = mod_windowed n next d.id c.id at low high lo hi in
        rw (e, store, (==_iff d.id c.id).1 same)
          (
            record s { reports = duplicate ∷ s.reports },
            next,
            refl,
            omega arith,
            record {
              next_is = v.next_is;
              pos = v.pos;
              size = v.size;
              window = v.window;
              counted = v.counted;
              log = record { falls = v.log.falls; source = v.log.source; told = v.log.told };
              held = v.held;
            },
            gap,
            inr (d, e, same),
          )
  ]
    where
      stored : Output
      stored = record s { buff = set s.buff (c.id % n) (some c) }

      here : slot stored.buff (c.id % n) ≡ some c
      here =
          get_or-set_self s.buff (c.id % n) (some c) none (omega (arith, v.size, mod-lt c.id v.pos))

      stored-Inv : Inv cfg P first next stored
      stored-Inv = record {
        next_is = v.next_is;
        pos = v.pos;
        size = rw (length-set s.buff (c.id % n) (some c)) v.size;
        window = Window-store n next s.buff v.window c v.pos v.size lo hi;
        counted = v.counted;
        log = v.log;
        held = λ i d h. elim (ℕ_discrete (c.id % n) i) [
          | yes same ↦ subst P (some_inj (sym here ∙ ap (slot stored.buff) same ∙ h)) pc
          | no other ↦ v.held i d (sym (get_or-set_ne s.buff (c.id % n) i (some c) none other) ∙ h)
        ];
      }

      apart : slot stored.buff (next % n) ≡ none
      apart =
          get_or-set_ne s.buff (c.id % n) (next % n) (some c) none
            (λ e. ne (sym (mod_window n next c.id (sym e) lo hi)))
          ∙ gap

  place_next :
      (c : Chunk) (next : ℕ) (s : Output)
      → s.next_chunk ≡ some next
      → c.id ≡ next
      → place cfg c s ≡ delivered (pass_on cfg c s)
  unfolding place
  place_next c next s h e = ground arith

  place_later :
      (c : Chunk) (next : ℕ) (s : Output)
      → s.next_chunk ≡ some next
      → c.id ≢ next
      → place cfg c s ≡ store cfg c s
  unfolding place
  place_later c next s h ne = ground arith

  pub place-Delivers :
      (c : Chunk) (next : ℕ) (s : Output) → Roomy c next s → P c → Delivers c next (place cfg c s)
  place-Delivers c next s (lo, hi, v, gap) pc = elim (ℕ_discrete c.id next) [
    | yes e ↦
        subst (Delivers c next) (sym (place_next c next s v.next_is e))
          (pass_on-Delivers c next s e v gap pc)
    | no ne ↦
        subst (Delivers c next) (sym (place_later c next s v.next_is ne))
          (store-Delivers c next s (lo, hi, v, gap) ne pc)
  ]
