-- ===== src/Streaming/Accept/Requests.antt =====
-- What `get_chunks_to_accept` of streaming.c asks for: only chunks that were offered and are needed,
-- not too many, none that is on its way already; and what it asks for is locked.
use streamers.Common.{
  ℕ, zero, suc, ◌+◌, ◌*◌, ◌<◌, ◌≤◌, ◌≡◌, refl, sym, ◌∙◌, ◌⊎◌, inl, inr, Bool, true, false, Option,
  List, [], ◌∷◌, ◌++◌, arith, ltb, ◌==◌, ◌&&◌, keep, any, length-keep-le, Bool-cases, ==_iff,
}
use mathlib.Core.Path.{subst}
use streamers.Timer.{Timeval, tv2int, IsNormal}
use streamers.Chunklock.{Lock, Locks, chunk_islocked, chunk_lock}
use streamers.Chunklock.Laws.{
  fresh, holds, chunk_islocked_locks, chunk_islocked-any, fresh_iff, chunk_lock-Fits, Fits,
}
use streamers.Chunk.{Chunk}
use streamers.Grapes.{ChunkIdSets, ChunkBuffers}
use streamers.Streaming.Needs.{set_needs}
use streamers.Streaming.Accept.{cb_to_bmap, Accepted, wanted, accept_loop, get_chunks_to_accept}

-- A lock on the chunk that has not run out at any reading of the clock.
abbrev pub LockOn : (ℕ → Timeval) → ℕ → List Lock → Type 0
LockOn clock id [] = ⊥
LockOn clock id (l ∷ ls) =
    ((l.chunkid ≡ id) × ((k : ℕ) → fresh (clock k) l ≡ true)) ⊎ LockOn clock id ls

module _ (clock : ℕ → Timeval) (id : ℕ) where
  LockOn-keep :
      (k : ℕ) (ls : List Lock) → LockOn clock id ls → LockOn clock id (keep (fresh (clock k)) ls)
  LockOn-keep k [] h = h
  LockOn-keep k (l ∷ ls) (inl (e, f)) = rw (f k) (inl (e, f))
  LockOn-keep k (l ∷ ls) (inr h) = elim (Bool-cases (fresh (clock k) l)) [
    | inl stays ↦ rw stays (inr (LockOn-keep k ls h))
    | inr goes ↦ rw goes (LockOn-keep k ls h)
  ]

  LockOn-any :
      (k : ℕ) (ls : List Lock)
      → LockOn clock id ls
      → any (λ l. fresh (clock k) l && holds id l) ls ≡ true
  LockOn-any k [] h = absurd h
  LockOn-any k (l ∷ ls) (inl (e, f)) = ground (arith, f k)
  LockOn-any k (l ∷ ls) (inr h) = ground (arith, LockOn-any k ls h)

  LockOn-append : (ls ms : List Lock) → LockOn clock id ls → LockOn clock id (ls ++ ms)
  LockOn-append [] ms h = absurd h
  LockOn-append (l ∷ ls) ms (inl h) = inl h
  LockOn-append (l ∷ ls) ms (inr h) = inr (LockOn-append ls ms h)

  LockOn-append_one :
      (ls : List Lock) (l : Lock)
      → l.chunkid ≡ id
      → ((k : ℕ) → fresh (clock k) l ≡ true)
      → LockOn clock id (ls ++ l ∷ [])
  LockOn-append_one [] l e f = inl (e, f)
  LockOn-append_one (m ∷ ls) l e f = inr (LockOn-append_one ls l e f)

  islocked_of_LockOn :
      (k : ℕ) (s : Locks) → LockOn clock id s.locks → (chunk_islocked (clock k) id s).0 ≡ true
  islocked_of_LockOn k s h = chunk_islocked-any (clock k) id s ∙ LockOn-any k s.locks h

  -- Asking for any chunk leaves the lock.
  islocked-LockOn :
      (k other : ℕ) (s : Locks)
      → LockOn clock id s.locks
      → LockOn clock id (chunk_islocked (clock k) other s).1.locks
  islocked-LockOn k other s h =
      rw (chunk_islocked_locks (clock k) other s) (LockOn-keep k s.locks h)

islocked-Fits :
    (now : Timeval) (other : ℕ) (s : Locks) → Fits s → Fits (chunk_islocked now other s).1
islocked-Fits now other s f =
    rw (chunk_islocked_locks now other s) (omega (arith, length-keep-le (fresh now) s.locks))

module _ (ids : ChunkIdSets) (buffers : ChunkBuffers) (cb_size_time cb_size max_deliver : ℕ)
    (cb : List Chunk) (from : Option ℕ) (clock : ℕ → Timeval)
    (cset_off : ChunkIdSets.ChunkIdSet ids) where
  open ids use {
    ChunkIdSet, init, add_chunk, check, size, get_chunk, check-init, check-add_chunk, size-init,
    size-add_chunk,
  }

  abbrev looked : ℕ → Accepted ids → Bool × Locks
  looked i s = chunk_islocked (clock (3 * i)) (get_chunk cset_off i) s.locks

  abbrev is_wanted : ℕ → Accepted ids → Bool
  is_wanted i s =
      wanted ids buffers cb_size_time cb_size max_deliver cb from clock cset_off i
        (get_chunk cset_off i) (looked i s).0

  abbrev taken : ℕ → Accepted ids → Accepted ids
  taken i s = record {
    cset_acc = add_chunk s.cset_acc (get_chunk cset_off i);
    locks = chunk_lock (clock (3 * i + 2)) (get_chunk cset_off i) from (looked i s).1;
  }

  abbrev passed_over : ℕ → Accepted ids → Accepted ids
  passed_over i s = record s { locks = (looked i s).1 }

  abbrev loop : ℕ → ℕ → ℕ → Accepted ids → Accepted ids
  loop = accept_loop ids buffers cb_size_time cb_size max_deliver cb from clock cset_off

  accept_cases {ℓ} :
      (P : Accepted ids → Type ℓ) (rounds i d : ℕ) (s : Accepted ids)
      → P s
      → (is_wanted i s ≡ true → d < max_deliver → P (loop rounds (suc i) (suc d) (taken i s)))
      → P (loop rounds (suc i) d (passed_over i s))
      → P (loop (suc rounds) i d s)
  unfolding accept_loop
  accept_cases P rounds i d s stop take pass = elim (Bool-cases (ltb d max_deliver)) [
    | inr full ↦ rw (full, accept_loop) stop
    | inl room ↦ elim (Bool-cases (is_wanted i s)) [
      | inl yea ↦ rw (room, accept_loop, yea) (take yea (ground arith))
      | inr nay ↦ rw (room, accept_loop, nay) pass
    ]
  ]

  abbrev needed : ℕ → ℕ → Bool
  needed j id =
      set_needs ids buffers cb_size_time (tv2int (clock (3 * j + 1))) cb (cb_to_bmap ids buffers cb)
        cb_size id

  is_wanted_lem :
      (i : ℕ) (s : Accepted ids)
      → is_wanted i s ≡ true
      → ((looked i s).0 ≡ false) × (needed i (get_chunk cset_off i) ≡ true)
  unfolding wanted
  is_wanted_lem i s h = ground arith

  -- The chunk was offered at a place from `i` on, and needed when it was looked at.
  abbrev Offered : ℕ → ℕ → ℕ → Type 0
  Offered id i n =
      (j : ℕ) × (i ≤ j) × (j < i + n) × (get_chunk cset_off j ≡ id) × (needed j id ≡ true)

  check-add_eq : (s : ChunkIdSet) (c : ℕ) → check (add_chunk s c) c ≡ true
  check-add_eq s c = ground (arith, check-add_chunk s c c)

  check-add_ne : (s : ChunkIdSet) (c d : ℕ) → (d == c) ≡ false → check (add_chunk s c) d ≡ check s d
  check-add_ne s c d ne = ground (arith, check-add_chunk s c d)

  loop-Offered :
      (id rounds i d : ℕ) (s : Accepted ids)
      → check (loop rounds i d s).cset_acc id ≡ true
      → (check s.cset_acc id ≡ true) ⊎ Offered id i rounds
  unfolding accept_loop
  loop-Offered id zero i d s h = inl h
  loop-Offered id (suc rounds) i d s h0 =
      accept_cases
        (λ r. check r.cset_acc id ≡ true → (check s.cset_acc id ≡ true) ⊎ Offered id i (suc rounds))
        rounds i d s (λ h. inl h)
        (λ yea room h. elim (loop-Offered id rounds (suc i) (suc d) (taken i s) h) [
          | inl acc ↦ elim (Bool-cases (id == get_chunk cset_off i)) [
            | inl same ↦
                let e : get_chunk cset_off i ≡ id = sym ((==_iff id _).0 same) in
                inr (i, omega arith, omega arith, e, rw e at (is_wanted_lem i s yea).1)
            | inr other ↦ inl (sym (check-add_ne s.cset_acc _ id other) ∙ acc)
          ]
          | inr (j, lo, hi, e, n) ↦ inr (j, omega arith, omega arith, e, n)
        ])
        (λ h. elim (loop-Offered id rounds (suc i) d (passed_over i s) h) [
          | inl acc ↦ inl acc
          | inr (j, lo, hi, e, n) ↦ inr (j, omega arith, omega arith, e, n)
        ])
        h0

  loop-size :
      (rounds i d : ℕ) (s : Accepted ids)
      → size s.cset_acc ≤ d
      → d ≤ max_deliver
      → size (loop rounds i d s).cset_acc ≤ max_deliver
  unfolding accept_loop
  loop-size zero i d s h m = omega arith
  loop-size (suc rounds) i d s h m =
      accept_cases (λ r. size r.cset_acc ≤ max_deliver) rounds i d s (omega arith)
        (λ yea room.
          loop-size rounds (suc i) (suc d) (taken i s)
            (omega (arith, size-add_chunk s.cset_acc (get_chunk cset_off i))) (omega arith))
        (loop-size rounds (suc i) d (passed_over i s) h m)

  taken-LockOn :
      (id i : ℕ) (s : Accepted ids)
      → Fits s.locks
      → LockOn clock id s.locks.locks
      → LockOn clock id (taken i s).locks.locks
  taken-LockOn id i s f h =
      let seen = islocked-LockOn clock id (3 * i) (get_chunk cset_off i) s.locks h in
      let stored =
        chunk_lock-Fits (clock (3 * i + 2)) (get_chunk cset_off i) from (looked i s).1
          (islocked-Fits (clock (3 * i)) (get_chunk cset_off i) s.locks f) in
      rw (stored.2) (LockOn-append clock id (looked i s).1.locks _ seen)

  taken-Fits : (i : ℕ) (s : Accepted ids) → Fits s.locks → Fits (taken i s).locks
  taken-Fits i s f =
      (chunk_lock-Fits (clock (3 * i + 2)) (get_chunk cset_off i) from (looked i s).1
        (islocked-Fits (clock (3 * i)) (get_chunk cset_off i) s.locks f)).1

  loop_locked :
      (id rounds i d : ℕ) (s : Accepted ids)
      → Fits s.locks
      → LockOn clock id s.locks.locks
      → check (loop rounds i d s).cset_acc id ≡ check s.cset_acc id
  unfolding accept_loop
  loop_locked id zero i d s f h = refl
  loop_locked id (suc rounds) i d s f h =
      accept_cases (λ r. check r.cset_acc id ≡ check s.cset_acc id) rounds i d s refl
        (λ yea room.
          let other : (id == get_chunk cset_off i) ≡ false =
            elim (Bool-cases (id == get_chunk cset_off i)) [
              | inl same ↦
                  ground
                    (arith, is_wanted_lem i s yea, islocked_of_LockOn clock id (3 * i) s.locks h)
              | inr ne ↦ ne
            ] in
          loop_locked id rounds (suc i) (suc d) (taken i s) (taken-Fits i s f)
            (taken-LockOn id i s f h)
          ∙ check-add_ne s.cset_acc _ id other)
        (loop_locked id rounds (suc i) d (passed_over i s)
          (islocked-Fits (clock (3 * i)) (get_chunk cset_off i) s.locks f)
          (islocked-LockOn clock id (3 * i) (get_chunk cset_off i) s.locks h))

  -- Whatever is accepted was offered, and was needed, by the rule of `_needs`, when it was looked at.
  pub accepted_offered :
      (locks : Locks) (id : ℕ)
      → check
          (get_chunks_to_accept ids buffers cb_size_time cb_size max_deliver cb from clock cset_off
            locks).cset_acc
          id
        ≡ true
      → (j : ℕ) × (j < size cset_off)
        × (get_chunk cset_off j ≡ id)
        × (set_needs ids buffers cb_size_time
              (tv2int (clock (3 * j + 1)))
              cb
              (cb_to_bmap ids buffers cb)
              cb_size
              id
            ≡ true)
  unfolding get_chunks_to_accept
  accepted_offered locks id h =
      elim (loop-Offered id (size cset_off) 0 0 (record { cset_acc = init; locks = locks }) h) [
        | inl none_yet ↦ cc (check-init id)
        | inr (j, lo, hi, e, n) ↦ (j, omega arith, e, n)
      ]

  -- At most `max_deliver` chunks are accepted.
  pub accepted_bounded :
      (locks : Locks)
      → size
          (get_chunks_to_accept ids buffers cb_size_time cb_size max_deliver cb from clock cset_off
            locks).cset_acc
        ≤ max_deliver
  unfolding get_chunks_to_accept
  accepted_bounded locks =
      loop-size (size cset_off) 0 0 (record { cset_acc = init; locks = locks })
        (omega (arith, size-init)) (omega arith)

  -- A chunk that was asked for before, under a lock which does not run out during the call, is not
  -- asked for again.
  pub locked_refused :
      (locks : Locks) (id : ℕ)
      → Fits locks
      → LockOn clock id locks.locks
      → check
          (get_chunks_to_accept ids buffers cb_size_time cb_size max_deliver cb from clock cset_off
            locks).cset_acc
          id
        ≡ false
  unfolding get_chunks_to_accept
  locked_refused locks id f h =
      loop_locked id (size cset_off) 0 0 (record { cset_acc = init; locks = locks }) f h
      ∙ check-init id

  module _ (normal : (k : ℕ) → IsNormal (clock k))
      (brief : (j k : ℕ) → tv2int (clock k) ≤ tv2int (clock j) + 2000000) where
    taken-LockOn_new :
        (i : ℕ) (s : Accepted ids)
        → Fits s.locks
        → LockOn clock (get_chunk cset_off i) (taken i s).locks.locks
    taken-LockOn_new i s f =
        let seen = islocked-Fits (clock (3 * i)) (get_chunk cset_off i) s.locks f in
        let stored =
          chunk_lock-Fits (clock (3 * i + 2)) (get_chunk cset_off i) from (looked i s).1 seen in
        let l : Lock = record {
          chunkid = get_chunk cset_off i;
          peer = from;
          timestamp = clock (3 * i + 2);
        } in
        rw (stored.2) (
          LockOn-append_one clock (get_chunk cset_off i) (looked i s).1.locks l refl
            λ k. (fresh_iff (clock k) l (normal k) (normal (3 * i + 2))).1 (brief (3 * i + 2) k))

    loop-LockOn :
        (id rounds i d : ℕ) (s : Accepted ids)
        → Fits s.locks
        → (check s.cset_acc id ≡ true → LockOn clock id s.locks.locks)
        → check (loop rounds i d s).cset_acc id ≡ true
        → LockOn clock id (loop rounds i d s).locks.locks
    unfolding accept_loop
    loop-LockOn id zero i d s f h c = h c
    loop-LockOn id (suc rounds) i d s f h c0 =
        accept_cases (λ r. check r.cset_acc id ≡ true → LockOn clock id r.locks.locks) rounds i d s
          h
          (λ yea room. loop-LockOn id rounds (suc i) (suc d) (taken i s) (taken-Fits i s f) λ c.
            elim (Bool-cases (id == get_chunk cset_off i)) [
              | inl same ↦
                  subst (λ x. LockOn clock x (taken i s).locks.locks) (sym ((==_iff id _).0 same))
                    (taken-LockOn_new i s f)
              | inr other ↦ taken-LockOn id i s f (h (sym (check-add_ne s.cset_acc _ id other) ∙ c))
            ])
          (loop-LockOn id rounds (suc i) d (passed_over i s)
            (islocked-Fits (clock (3 * i)) (get_chunk cset_off i) s.locks f)
            λ c. islocked-LockOn clock id (3 * i) (get_chunk cset_off i) s.locks (h c))
          c0

    -- Whatever is accepted is locked when the call returns, where the call takes at most two seconds.
    pub accepted-LockOn :
        (locks : Locks) (id : ℕ)
        → Fits locks
        → check
            (get_chunks_to_accept ids buffers cb_size_time cb_size max_deliver cb from clock
              cset_off locks).cset_acc
            id
          ≡ true
        → LockOn clock id
            (get_chunks_to_accept ids buffers cb_size_time cb_size max_deliver cb from clock
              cset_off locks).locks.locks
    unfolding get_chunks_to_accept
    accepted-LockOn locks id f =
        loop-LockOn id (size cset_off) 0 0 (record { cset_acc = init; locks = locks }) f
          λ c. cc (check-init id)
