-- ===== src/Chunkstream/Output/Sent.antt =====
-- What `chunk_write` of output-chunkstream.c sends: the frames of the chunks, in pieces.
use mathlib.Core.Path.{subst}
use streamers.Common.{
  ℕ, ◌+◌, ◌-◌, ◌≤◌, ◌≡◌, ◌≢◌, refl, sym, ap, ◌∙◌, Bool, true, false, Option, none, some, List, [],
  ◌∷◌, ◌++◌, map, arith, length, take, drop, All, append_assoc, append-nil, take_append-drop,
  Bool-cases, inl, inr,
}
use streamers.Chunk.{Chunk}
use streamers.Chunkstream.{Codec, bufsize, frame, before_comma}
use streamers.Chunkstream.Input.Frames.{Coded, IsCode, stream}
use streamers.Chunkstream.Output.{
  Sender, Connecting, Wrote, wrote, stalled, failed, queue, fits, is_closed, write_out,
  send_pending, chunk_write, write_all, out_stream_init, output_connect,
}

abbrev pub has_failed : Wrote → Bool
has_failed failed = true
has_failed stalled = false
has_failed (wrote n) = false

-- At the start nothing waits and nothing was written.
pub out_stream_init-empty :
    (sys : Connecting) (fn : Option (List ℕ))
    → ((out_stream_init sys fn).pending ≡ []) × ((out_stream_init sys fn).written ≡ [])
unfolding out_stream_init output_connect
out_stream_init-empty sys none = (refl, refl)
out_stream_init-empty sys (some name) = elim (Bool-cases (sys.is_tcp (before_comma name))) [
  | inl t ↦ rw (t) (refl, refl)
  | inr f ↦ rw (f) (refl, refl)
]

-- The descriptor is open.
unfoldable pub Opened : Sender → Type 0
Opened s = (fd : ℕ) × (s.fd ≡ some fd)

module _ (codec : Codec) where
  -- A chunk without a place leaves three bytes 255.
  pub queue-unfit :
      (c : Chunk) (pending : List ℕ)
      → codec.encode c (bufsize - length pending) ≡ none
      → queue codec c pending ≡ pending ++ (255 ∷ 255 ∷ 255 ∷ [])
  unfolding queue
  queue-unfit c pending e = rw (e, queue) refl

module _ (codec : Codec) (sys : Connecting) where
  -- Each chunk has a code that is not empty, which lies in the buffer with its size when it is written, and no write
  -- fails.
  unfoldable pub Goes : List (Chunk × Wrote) → Sender → Type 0
  Goes [] s = Unit
  Goes ((c, result) ∷ ws) s =
      ((code : List ℕ) × (codec.encode c (bufsize - length s.pending) ≡ some code)
        × (code ≢ [])
        × (length s.pending + 4 + length code ≤ bufsize))
      × (has_failed result ≡ false)
      × Goes ws (send_pending sys result (record s { pending = queue codec c s.pending }))

  fits_lem :
      (c : Chunk) (pending code : List ℕ)
      → codec.encode c (bufsize - length pending) ≡ some code
      → length pending + 4 + length code ≤ bufsize
      → fits codec c pending ≡ true
  unfolding fits
  fits_lem c pending [] e h = rw (e, fits) refl
  fits_lem c pending (b ∷ code) e h = rw (e, fits) (ground arith)

  queue_lem :
      (c : Chunk) (pending code : List ℕ)
      → codec.encode c (bufsize - length pending) ≡ some code
      → code ≢ []
      → queue codec c pending ≡ pending ++ frame code
  unfolding queue
  queue_lem c pending [] e n = absurd (n refl)
  queue_lem c pending (b ∷ code) e n = rw (e, queue) refl

  -- To an open descriptor nothing is connected again.
  send_pending-open :
      (result : Wrote) (s : Sender) → Opened s → send_pending sys result s ≡ write_out result s
  unfolding send_pending is_closed Opened
  send_pending-open result s (fd, o) = elim (Bool-cases s.tcp) [
    | inl t ↦ simp (t, o) refl
    | inr f ↦ simp (f, o) refl
  ]

  -- What was written and what waits are together what they were, and what the write added.
  write_out_lem :
      (result : Wrote) (s : Sender)
      → Opened s
      → has_failed result ≡ false
      → Opened (write_out result s)
        × ((write_out result s).written ++ (write_out result s).pending ≡ s.written ++ s.pending)
  unfolding write_out Opened
  write_out_lem (wrote n) s o ok = (
    o,
    append_assoc s.written (take n s.pending) (drop n s.pending)
        ∙ ap (λ l. s.written ++ l) (take_append-drop n s.pending),
  )
  write_out_lem stalled s o ok = (o, refl)
  write_out_lem failed s o ok = absurd cc

  write_all_step :
      (c : Chunk) (result : Wrote) (ws : List (Chunk × Wrote)) (s : Sender)
      → fits codec c s.pending ≡ true
      → write_all codec sys ((c, result) ∷ ws) s
        ≡ write_all codec sys ws
            (send_pending sys result (record s { pending = queue codec c s.pending }))
  unfolding write_all chunk_write
  write_all_step c result ws s f = rw (write_all, f) refl

  -- If the descriptor is open and all chunks go, then no call writes behind the end of the buffer, and there are codes
  -- of the chunks, as the codec makes them, whose frames follow what was written and waits before.
  pub write_all_lem :
      (ws : List (Chunk × Wrote)) (s : Sender)
      → Opened s
      → Goes ws s
      → (s' : Sender) × (write_all codec sys ws s ≡ some s')
        × (ps : List Coded) × (map (λ p. p.0) ps ≡ map (λ w. w.0) ws)
        × All (IsCode codec) ps
        × (s'.written ++ s'.pending ≡ (s.written ++ s.pending) ++ stream ps)
  unfolding write_all chunk_write Goes Opened
  write_all_lem [] s o g = (s, refl, [], refl, tt, sym (append-nil (s.written ++ s.pending)))
  write_all_lem ((c, result) ∷ ws) s o ((code, e, n, room), ok, g) =
      let s1 : Sender = record s { pending = queue codec c s.pending } in
      let step = send_pending-open result s1 o in
      let (o', f) = write_out_lem result s1 o ok in
      let (s', run, ps, m, h, k) =
        write_all_lem ws (write_out result s1) o' (subst (Goes ws) step g) in
      let is_code : IsCode codec (c, code) =
        (codec.decode-encode c (bufsize - length s.pending) e, omega (arith, room)) in
      let q : s1.written ++ s1.pending ≡ (s.written ++ s.pending) ++ frame code =
        ap (λ l. s.written ++ l) (queue_lem c s.pending code e n)
        ∙ sym (append_assoc s.written s.pending (frame code)) in
      (
        s',
        write_all_step c result ws s (fits_lem c s.pending code e room)
            ∙ ap (write_all codec sys ws) step
            ∙ run,
        (c, code) ∷ ps,
        ap (λ l. c ∷ l) m,
        (is_code, h),
        k
            ∙ ap (λ l. l ++ stream ps) (f ∙ q)
            ∙ append_assoc (s.written ++ s.pending) (frame code) (stream ps),
      )
