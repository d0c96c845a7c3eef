-- ===== src/Streaming/Push/Once.antt =====
-- What `send_chunk` of streaming.c pushes, also when it is called again and again: the latest chunk, to no
-- neighbour twice.
use mathlib.Core.Path.{subst, subst⁻¹}
use streamers.Common.{
  ℕ, zero, suc, ◌+◌, ◌≤◌, ◌≡◌, refl, ap, Bool, true, some, List, [], ◌∷◌, arith, ◌==◌, length,
  get_elem?, take, any, All, All-mono,
}
use streamers.Chunk.{Chunk}
use streamers.Grapes.{ChunkIdSets, ChunkBuffers, Schedulers}
use streamers.Streaming.Needs.{Peer, needs}
use streamers.Streaming.Receive.{StreamConfig}
use streamers.Streaming.Push.{
  Pushing, Pushed, finished, fault, latest_first, push_one, push_loop, selected_pairs, send_chunk,
  send_chunks,
}
use streamers.Streaming.Push.Noted.{
  IsMapped, Noted, Distinct, IsOnce, Pushes, pushes, push_one-Pushes,
}

module _ (ids : ChunkIdSets) (buffers : ChunkBuffers) (cfg : StreamConfig) where
  -- The invariant of the calls, on a whole loop.
  push_loop-Pushes :
      (before : Bool) (ok : ℕ → Bool) (latest : List ℕ) (n i now t : ℕ) (pairs : List (ℕ × ℕ))
      → (s : Pushing ids) → IsOnce ids latest s
      → length s.sent ≤ n
      → length pairs ≤ 1
      → All
          (λ (r : ℕ × ℕ).
            (p : Peer ids) × (get_elem? s.neighbours r.0 ≡ some p)
            × (needs ids buffers t now now s.cb p r.1 ≡ true)
            × (any (λ c. c == r.1) (take 1 latest) ≡ true))
          pairs
      → Pushes ids latest (suc n) (push_loop ids buffers cfg before ok i pairs s)
  unfolding push_loop
  push_loop-Pushes before ok latest n i now t [] s w l k a = pushes w (omega arith)
  push_loop-Pushes before ok latest n i now t (r ∷ q ∷ pairs) s w l k a = absurd (omega arith)
  push_loop-Pushes before ok latest n i now t ((j, cid) ∷ []) s w l k ((p, g, need, recent), a) =
      one (push_one ids buffers cfg before (ok i) (j, cid) s)
        (push_one-Pushes ids buffers cfg before (ok i) latest n j cid now t p s w l g need recent)
    where
      one :
          (r : Pushed ids)
          → Pushes ids latest (suc n) r
          → Pushes ids latest (suc n) (elim r [
            | fault ↦ fault
            | finished s' ↦ push_loop ids buffers cfg before ok (suc i) [] s'
          ])
      one (finished s') (pushes w' l') = pushes w' l'
      one fault h = elim h [ ]

  -- Without neighbours or chunks nothing is done.
  guarded :
      (latest : List ℕ) (n : ℕ) (ps : List (Peer ids)) (cb : List Chunk) (r r' : Pushed ids)
      → Pushes ids latest n r
      → Pushes ids latest n r'
      → Pushes ids latest n (elim ps [ [] ↦ r | p ∷ qs ↦ elim cb [ [] ↦ r | c ∷ cs ↦ r' ] ])
  guarded latest n [] cb r r' h h' = h
  guarded latest n (p ∷ ps) [] r r' h h' = h
  guarded latest n (p ∷ ps) (c ∷ cs) r r' h h' = h'

  module _ (schedulers : Schedulers (Peer ids)) (t : ℕ) where
    send_chunk-Pushes :
        (before : Bool) (ok : ℕ → Bool) (latest : List ℕ) (n now : ℕ) (s : Pushing ids)
        → IsOnce ids latest s
        → length s.sent ≤ n
        → Pushes ids latest (suc n) (send_chunk ids buffers cfg schedulers t before ok now s)
    unfolding send_chunk selected_pairs
    send_chunk-Pushes before ok latest n now s w l =
        let ids_given = take 1 (latest_first s.cb) in
        let filter = needs ids buffers t now now s.cb in
        let sound = schedulers.pairs_sound s.neighbours ids_given 1 filter in
        let sound' =
          All-mono (schedulers.select_pairs s.neighbours ids_given 1 filter)
            (λ r h.
              let (p, g, need, here) = h in
              (p, g, need, subst (λ l. any (λ c. c == r.1) (take 1 l) ≡ true) w.same here))
            sound in
        guarded latest (suc n) s.neighbours s.cb (finished s)
          (push_loop ids buffers cfg before ok 0 (selected_pairs ids buffers cfg schedulers t now s)
            s)
          (pushes w (omega arith))
          (push_loop-Pushes before ok latest n 0 now t
            (schedulers.select_pairs s.neighbours ids_given 1 filter) s w l
            (schedulers.pairs_bounded s.neighbours ids_given 1 filter) sound')

    calls-Pushes :
        (before : Bool) (ok : ℕ → ℕ → Bool) (now : ℕ → ℕ) (latest : List ℕ) (n m : ℕ)
        → (r : Pushed ids) → Pushes ids latest m r
        → Pushes ids latest (m + n) (elim r [
          | fault ↦ fault
          | finished s' ↦ send_chunks ids buffers cfg schedulers t before ok now n s'
        ])
    unfolding send_chunks
    calls-Pushes before ok now latest n m fault h = elim h [ ]
    calls-Pushes before ok now latest zero m (finished s) (pushes w l) = pushes w (omega arith)
    calls-Pushes before ok now latest (suc n) m (finished s) (pushes w l) =
        subst
          (λ k.
            Pushes ids latest k (send_chunks ids buffers cfg schedulers t before ok now (suc n) s))
          (omega arith)
          (calls-Pushes before ok now latest n (suc m)
            (send_chunk ids buffers cfg schedulers t before (ok n) (now n) s)
            (send_chunk-Pushes before (ok n) latest m (now n) s w l))

    -- However often `send_chunk` is called in a row, at whatever times, while the chunk buffer takes no
    -- chunk: if all neighbours have buffer maps, then there is no fault, each call pushes one chunk at most,
    -- all pushes are of the latest chunk, no neighbour gets it twice, and it is in the buffer maps of those
    -- that got it.
    pub send_chunks-Pushes :
        (before : Bool) (ok : ℕ → ℕ → Bool) (now : ℕ → ℕ) (n : ℕ) (s : Pushing ids)
        → All (IsMapped ids) s.neighbours
        → s.sent ≡ []
        → Pushes ids
            (latest_first s.cb)
            n
            (send_chunks ids buffers cfg schedulers t before ok now n s)
    send_chunks-Pushes before ok now n s m e =
        let none_sent : length s.sent ≡ 0 = ap length e in
        let start : 0 + n ≡ n = omega arith in
        subst
          (λ k.
            Pushes ids (latest_first s.cb) k
              (send_chunks ids buffers cfg schedulers t before ok now n s))
          start
          (calls-Pushes before ok now (latest_first s.cb) n 0 (finished s) (
            pushes
              (record {
                same = refl;
                mapped = m;
                recent =
                    subst⁻¹
                      (All (λ (x : ℕ × Chunk).
                        any (λ c. c == x.1.id) (take 1 (latest_first s.cb)) ≡ true))
                      e tt;
                noted = subst⁻¹ (All (Noted ids s.neighbours)) e tt;
                distinct = subst⁻¹ Distinct e tt;
              })
              (omega arith)))
