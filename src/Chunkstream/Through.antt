-- ===== src/Chunkstream/Through.antt =====
-- From `chunk_write` of output-chunkstream.c to `input_get` of input-chunkstream.c.
use mathlib.Core.Path.{subst}
use streamers.Common.{
  ℕ, suc, ◌≤◌, ◌≡◌, refl, sym, ap, ◌∙◌, false, Option, none, some, List, [], ◌∷◌, ◌++◌, map, length,
  replicate, All, append-nil,
}
use streamers.Chunk.{Chunk}
use streamers.Chunkstream.{Codec, bufsize}
use streamers.Chunkstream.Input.{Recv, would_block, without_attributes, input_all}
use streamers.Chunkstream.Input.Frames.{
  Coded, plain, stream, bytes_of, taken, is_broken, input_all-stream,
}
use streamers.Chunkstream.Output.{Sender, Connecting, Wrote, write_all, out_stream_init, queue}
use streamers.Chunkstream.Output.Sent.{
  Goes, Opened, write_all_lem, out_stream_init-empty, queue-unfit,
}
use streamers.Chunkstream.Input.Stuck.{three_lem}

plain-map :
    (ps : List Coded) (ws : List (Chunk × Wrote))
    → map (λ p. p.0) ps ≡ map (λ w. w.0) ws
    → (plain ps ≡ map (λ w. without_attributes w.0) ws) × (length ps ≡ length ws)
plain-map [] [] e = (refl, refl)
plain-map [] (w ∷ ws) e = absurd cc
plain-map (p ∷ ps) [] e = absurd cc
plain-map ((c, code) ∷ ps) ((d, r) ∷ ws) e =
    let hd : c ≡ d = cc in
    let tl : map (λ p. p.0) ps ≡ map (λ w. w.0) ws = cc in
    let (f, g) = plain-map ps ws tl in (cc, ap suc g)

-- Chunks are written to a stream that `out_stream_init` opened; each has a code that is not empty, which lies in the
-- buffer with its size when it is written; no write fails, whatever number of bytes the writes take; and in the end,
-- in the state `s'`, nothing waits. Then `input_get`, called on the bytes in whatever pieces they come, of which each
-- call takes what it has room for, no call failing and all bytes being taken, and once more for each chunk, gets
-- exactly these chunks, without their attributes, in their order, and no byte is left.
pub input_all-write_all :
    (codec : Codec) (sys : Connecting) (fn : Option (List ℕ)) (ws : List (Chunk × Wrote))
    (s' : Sender) (rs : List Recv)
    → Opened (out_stream_init sys fn)
    → Goes codec sys ws (out_stream_init sys fn)
    → write_all codec sys ws (out_stream_init sys fn) ≡ some s'
    → s'.pending ≡ []
    → All (λ r. is_broken r ≡ false) rs
    → taken codec rs [] ≡ s'.written
    → input_all codec (rs ++ replicate (length ws) would_block) []
      ≡ some (map (λ w. without_attributes w.0) ws, [])
input_all-write_all codec sys fn ws s' rs o g run emptied ok e =
    let (p, w) = out_stream_init-empty sys fn in
    let (t, run', ps, m, h, k) = write_all_lem codec sys ws (out_stream_init sys fn) o g in
    let same : t ≡ s' = cc in
    let (f, l) = plain-map ps ws m in
    let all_there : s'.written ≡ stream ps =
      sym (append-nil s'.written)
      ∙ ap (λ b. s'.written ++ b) (sym emptied)
      ∙ ap (λ (x : Sender). x.written ++ x.pending) (sym same)
      ∙ k
      ∙ ap (λ b. b ++ stream ps) (ap (λ b. b ++ (out_stream_init sys fn).pending) w ∙ p) in
    subst
      (λ n.
        input_all codec (rs ++ replicate n would_block) []
        ≡ some (map (λ w. without_attributes w.0) ws, []))
      l (input_all-stream codec rs ps ok h (e ∙ all_there) ∙ ap (λ cs. some (cs, [])) f)

-- If a chunk has no place in the empty buffer of `chunk_write`, then `input_get` gets no chunk from where
-- its bytes begin on, whatever is written behind it, however it comes in, as long as it fits the buffer of
-- `input_get` and no call fails.
pub unfit_lem :
    (codec : Codec) (c : Chunk) (rs : List Recv) (tail : List ℕ)
    → codec.encode c bufsize ≡ none
    → All (λ r. is_broken r ≡ false) rs
    → length (queue codec c [] ++ tail) ≤ bufsize
    → bytes_of rs ≡ queue codec c [] ++ tail
    → input_all codec rs [] ≡ some ([], bytes_of rs)
unfit_lem codec c rs tail n ok l e =
    let q = queue-unfit codec c [] n in
    let e' : bytes_of rs ≡ 255 ∷ 255 ∷ 255 ∷ tail = e ∙ ap (λ b. b ++ tail) q in
    let l' : length (255 ∷ 255 ∷ 255 ∷ tail) ≤ bufsize =
      subst (λ b. length (b ++ tail) ≤ bufsize) q l in
    three_lem codec rs tail ok l' e' ∙ ap (λ b. some ([], b)) (sym e')
