-- ===== src/Streaming/Offer/Recent.antt =====
-- What `compose_offer_cset` of streaming.c offers.
use streamers.Common.{
  ℕ, zero, suc, ◌+◌, ◌-◌, ◌*◌, ◌/◌, ◌≡◌, ◌⊎◌, inl, inr, refl, Bool, true, Option, none, some, List,
  [], ◌∷◌, arith, length, take, get_elem?, any, if◌then◌else◌, ltb, ◌==◌, ◌&&◌, ◌||◌, Bool-cases,
  Option-cases,
}
use streamers.Chunk.{Chunk}
use streamers.Grapes.{ChunkIdSets}
use streamers.Streaming.Offer.{default_rtt_estimate, offer_loop, compose_offer_cset}

any-take-suc :
    (f : Chunk → Bool) (xs : List Chunk) (j : ℕ) {c : Chunk}
    → get_elem? xs j ≡ some c
    → any f (take (suc j) xs) ≡ (any f (take j xs) || f c)
any-take-suc f [] j {c} h = cc
any-take-suc f (x ∷ xs) zero {c} h = ground arith
any-take-suc f (x ∷ xs) (suc j) {c} h = ground (arith, any-take-suc f xs j {c = c})

-- A chunk of the id that is later than `ts`.
abbrev pub later_than : ℕ → ℕ → Chunk → Bool
later_than ts id c = (c.id == id) && ltb ts c.timestamp

-- How far into the buffer the offer goes.
abbrev pub reach : Bool → ℕ → ℕ
reach am_i_source last = suc (if am_i_source then last * 3 / 4 else last)

module _ (ids : ChunkIdSets) where
  open ids use {ChunkIdSet, init, add_chunk, check, check-init, check-add_chunk}

  loop_lem :
      (dt ts : ℕ) (chunks : List Chunk) (n : ℕ) (b : ChunkIdSet) (id : ℕ)
      → check (offer_loop ids dt ts chunks n b) id ≡ true
      → (any (later_than (ts + dt) id) (take n chunks) ≡ true) ⊎ (check b id ≡ true)
  unfolding offer_loop
  loop_lem dt ts chunks zero b id h = inr h
  loop_lem dt ts chunks (suc j) b id h = elim (Option-cases (get_elem? chunks j)) [
    | inl out ↦ inr (rw (out, offer_loop) at h)
    | inr (c, here) ↦
        let taken = any-take-suc (later_than (ts + dt) id) chunks j {c = c} here in
        elim (Bool-cases (ltb (ts + dt) c.timestamp)) [
          | inl late ↦
              let h' : check (offer_loop ids dt ts chunks j (add_chunk b c.id)) id ≡ true =
                rw (here, offer_loop, late) at h in
              let rest = loop_lem dt ts chunks j (add_chunk b c.id) id h' in
              ground (arith, rest, taken, check-add_chunk b c.id id)
          | inr early ↦
              let h' : check (offer_loop ids dt ts chunks j b) id ≡ true =
                rw (here, offer_loop, early) at h in
              let rest = loop_lem dt ts chunks j b id h' in ground (arith, rest, taken)
        ]
  ]

  -- For a buffer that holds a chunk there is an offer, and each chunk in it is held, is later than the
  -- first one by more than the round trip time or its estimate, and does not stand in the latest
  -- quarter of the buffer if this is the source.
  pub compose_offer_cset-Recent :
      (rtt : Option ℕ) (am_i_source : Bool) (c : Chunk) (cs : List Chunk)
      → let dt : ℕ = elim rtt [ none ↦ default_rtt_estimate | some t ↦ t ] in
        (offer : ChunkIdSet) × (compose_offer_cset ids rtt am_i_source (c ∷ cs) ≡ some offer)
        × ((id : ℕ)
            → check offer id ≡ true
            → any
                (later_than (c.timestamp + dt) id)
                (take (reach am_i_source (length (c ∷ cs) - 1)) (c ∷ cs))
              ≡ true)
  unfolding compose_offer_cset
  compose_offer_cset-Recent rtt am_i_source c cs =
      let dt : ℕ = elim rtt [ none ↦ default_rtt_estimate | some t ↦ t ] in
      let n = reach am_i_source (length (c ∷ cs) - 1) in
      (
        _,
        refl,
        λ id h. elim (loop_lem dt c.timestamp (c ∷ cs) n init id h) [
          | inl found ↦ found
          | inr never ↦ cc (check-init id)
        ],
      )
