-- ===== src/Chunkstream/Input/Frames.antt =====
-- What `input_get` of input-chunkstream.c makes of a stream of frames, however it comes in.
use mathlib.Core.Path.{subst}
use streamers.Common.{
  ℕ, zero, suc, ◌+◌, ◌^◌, ◌≤◌, ◌<◌, ◌≡◌, refl, sym, ap, ◌∙◌, ◌⊎◌, inl, inr, Bool, true, false, none,
  some, List, [], ◌∷◌, ◌++◌, arith, ltb, leb, length, drop, replicate, All, Bool-cases,
  length-append, take-append, drop-append, get_or-append, append_split, append_assoc, append-nil,
}
use streamers.Chunk.{Chunk}
use streamers.Chunkstream.{Codec, htonl, ntohl, frame}
use streamers.Chunkstream.Input.{
  Recv, received, would_block, broken, Got, in_room, is_whole, without_attributes, take_chunk,
  input_get, input_all,
}

pub ntohl-htonl : (n : ℕ) (bytes : List ℕ) → n < 2 ^ 32 → ntohl (htonl n ++ bytes) ≡ n
ntohl-htonl n bytes h = omega arith

-- The size stands in the first four bytes.
pub ntohl-append : (held more : List ℕ) → 4 ≤ length held → ntohl (held ++ more) ≡ ntohl held
ntohl-append held more h =
    rw
      (
        get_or-append held more 0 0 (omega arith),
        get_or-append held more 1 0 (omega arith),
        get_or-append held more 2 0 (omega arith),
        get_or-append held more 3 0 (omega arith),
      )
      refl

-- Chunks with their codes; a code that is decoded to its chunk and whose size fits 32 bits.
abbrev pub Coded : Type 0
Coded = Chunk × List ℕ

module _ (codec : Codec) where
  abbrev pub IsCode : Coded → Type 0
  IsCode (c, code) = (codec.decode code ≡ some c) × (length code < 2 ^ 32)

  pub take_chunk-frame :
      (c : Chunk) (code more : List ℕ)
      → IsCode (c, code)
      → take_chunk codec (frame code ++ more)
        ≡ record { chunk = some (without_attributes c); held = more; again = is_whole more }
  unfolding take_chunk
  take_chunk-frame c code more (d, f) =
      let bytes : List ℕ = frame code ++ more in
      let sum = length-append code more in
      let long : ltb (length bytes) 4 ≡ false = ground arith in
      let size : ntohl bytes ≡ length code = ntohl-htonl (length code) (code ++ more) f in
      let whole : leb (4 + length code) (length bytes) ≡ true = ground (arith, sum) in
      let k : 4 + length code ≡ length (frame code) = omega arith in
      let rest : drop (4 + length code) bytes ≡ more =
        ap (λ n. drop n bytes) k ∙ drop-append (frame code) more in
      simp (long, size, whole, take-append code more, d, take_chunk)
        (ap (λ r. record { chunk = some (without_attributes c); held = r; again = is_whole r })
          rest)

  -- A frame that has not come in whole stays.
  pub take_chunk-partial :
      (held more code : List ℕ) (tail : List ℕ)
      → held ++ more ≡ frame code ++ tail
      → length code < 2 ^ 32
      → length held < 4 + length code
      → take_chunk codec held ≡ record { chunk = none; held = held; again = false }
  unfolding take_chunk is_whole
  take_chunk-partial held more code tail e f h = elim (Bool-cases (ltb (length held) 4)) [
    | inl short ↦ rw (short, take_chunk) refl
    | inr long ↦
        let size : ntohl held ≡ length code =
          sym (ntohl-append held more (ground arith))
          ∙ ap ntohl e
          ∙ ntohl-htonl (length code) (code ++ tail) f in
        let cut : leb (4 + length code) (length held) ≡ false = ground arith in
        let cut' : leb (4 + ntohl held) (length held) ≡ false =
          ap (λ n. leb (4 + n) (length held)) size ∙ cut in
        let whole : is_whole held ≡ false = rw (long, is_whole) cut' in
        rw (long, take_chunk)
          (rw (cut') (ap (λ w. record { chunk = none; held = held; again = w }) whole))
  ]

  take_chunk-nil : take_chunk codec [] ≡ record { chunk = none; held = []; again = false }
  unfolding take_chunk
  take_chunk-nil = refl

-- The bytes of a stream of coded chunks.
abbrev pub stream : List Coded → List ℕ
stream [] = []
stream ((c, code) ∷ ps) = frame code ++ stream ps

-- The chunks, without their attributes.
abbrev pub plain : List Coded → List Chunk
plain [] = []
plain ((c, code) ∷ ps) = without_attributes c ∷ plain ps

-- The bytes that came, and that no call failed.
abbrev pub bytes_of : List Recv → List ℕ
bytes_of [] = []
bytes_of (received bytes ∷ rs) = bytes ++ bytes_of rs
bytes_of (would_block ∷ rs) = bytes_of rs
bytes_of (broken ∷ rs) = bytes_of rs

-- The bytes that the calls took, each as many as it had room for.
unfoldable pub taken : Codec → List Recv → List ℕ → List ℕ
taken codec [] held = []
taken codec (received bytes ∷ rs) held =
    in_room held bytes ++ taken codec rs (take_chunk codec (held ++ in_room held bytes)).held
taken codec (would_block ∷ rs) held = taken codec rs (take_chunk codec held).held
taken codec (broken ∷ rs) held = taken codec rs held

abbrev pub is_broken : Recv → Bool
is_broken broken = true
is_broken would_block = false
is_broken (received bytes) = false

module _ (codec : Codec) where
  -- What a call makes of the bytes that are there: nothing, or the chunk of the first frame.
  take_chunk_cases :
      (held more : List ℕ) (ps : List Coded)
      → held ++ more ≡ stream ps
      → All (IsCode codec) ps
      → (take_chunk codec held ≡ record { chunk = none; held = held; again = false })
        ⊎ ((p : Coded) × (qs : List Coded) × (rest : List ℕ) × (ps ≡ p ∷ qs)
            × (take_chunk codec held ≡ record {
              chunk = some (without_attributes p.0);
              held = rest;
              again = is_whole rest;
            })
            × (rest ++ more ≡ stream qs))
  take_chunk_cases [] more [] e h = inl (take_chunk-nil codec)
  take_chunk_cases (b ∷ held) more [] e h = absurd cc
  take_chunk_cases held more ((c, code) ∷ qs) e (h, hs) =
      elim (Bool-cases (ltb (length held) (4 + length code))) [
        | inl short ↦ inl (take_chunk-partial codec held more code (stream qs) e h.1 (ground arith))
        | inr long ↦
            let (rest, f, g) = append_split (frame code) held (stream qs) more e (ground arith) in
            inr (
              (c, code),
              qs,
              rest,
              refl,
              ap (take_chunk codec) f ∙ take_chunk-frame codec c code rest h,
              g,
            )
      ]

  -- A call that gets no chunk, and one that gets one.
  pub input_all-silent :
      (r : Recv) (rs : List Recv) (held b : List ℕ) (cs : List Chunk) (rest : List ℕ)
      → input_get codec r held ≡ some (record { chunk = none; held = b; again = false })
      → input_all codec rs b ≡ some (cs, rest)
      → input_all codec (r ∷ rs) held ≡ some (cs, rest)
  unfolding input_all
  input_all-silent r rs held b cs rest e f = rw (e, input_all) (rw (f) refl)

  input_all-yields :
      (r : Recv) (rs : List Recv) (held b : List ℕ) (a : Bool) (c : Chunk) (cs : List Chunk)
      → (rest : List ℕ)
      → input_get codec r held ≡ some (record { chunk = some c; held = b; again = a })
      → input_all codec rs b ≡ some (cs, rest)
      → input_all codec (r ∷ rs) held ≡ some (c ∷ cs, rest)
  unfolding input_all
  input_all-yields r rs held b a c cs rest e f = rw (e, input_all) (rw (f) refl)

  -- All chunks come out of a buffer that holds their frames, with a call for each.
  drain :
      (n : ℕ) (ps : List Coded)
      → length ps ≤ n
      → All (IsCode codec) ps
      → input_all codec (replicate n would_block) (stream ps) ≡ some (plain ps, [])
  unfolding input_get input_all
  drain zero [] l h = refl
  drain zero (p ∷ ps) l h = absurd (omega arith)
  drain (suc n) [] l h =
      input_all-silent would_block (replicate n would_block) [] [] [] []
        (ap some (take_chunk-nil codec)) (drain n [] (omega arith) tt)
  drain (suc n) ((c, code) ∷ ps) l (h, hs) =
      input_all-yields would_block (replicate n would_block) (frame code ++ stream ps) (stream ps)
        (is_whole (stream ps)) (without_attributes c) (plain ps) []
        (ap some (take_chunk-frame codec c code (stream ps) h)) (drain n ps (omega arith) hs)

  -- A call after which `b` is the buffer that `input_get` looks at, and the calls behind it.
  take_then :
      (r : Recv) (rs : List Recv) (held b more : List ℕ) (ps : List Coded) (n : ℕ)
      → input_get codec r held ≡ some (take_chunk codec b)
      → b ++ more ≡ stream ps
      → length ps ≤ n
      → All (IsCode codec) ps
      → ((b' : List ℕ) (qs : List Coded)
          → (take_chunk codec b).held ≡ b'
          → b' ++ more ≡ stream qs
          → length qs ≤ n
          → All (IsCode codec) qs
          → input_all codec rs b' ≡ some (plain qs, []))
      → input_all codec (r ∷ rs) held ≡ some (plain ps, [])
  take_then r rs held b more ps n g e l h ih = elim (take_chunk_cases b more ps e h) [
    | inl none_yet ↦
        input_all-silent r rs held b (plain ps) [] (g ∙ ap some none_yet)
          (ih b ps (ap (λ (g : Got). g.held) none_yet) e l h)
    | inr (p, qs, rest, f, t, e') ↦
        let h' : All (IsCode codec) (p ∷ qs) = subst (All (IsCode codec)) f h in
        let l' : length (p ∷ qs) ≤ n = subst (λ x. length x ≤ n) f l in
        rw (f) (
          input_all-yields r rs held rest (is_whole rest) (without_attributes p.0) (plain qs) []
            (g ∙ ap some t) (ih rest qs (ap (λ (g : Got). g.held) t) e' (omega arith) h'.1))
  ]

  go :
      (rs : List Recv) (held : List ℕ) (ps : List Coded) (n : ℕ)
      → length ps ≤ n
      → All (λ r. is_broken r ≡ false) rs
      → All (IsCode codec) ps
      → held ++ taken codec rs held ≡ stream ps
      → input_all codec (rs ++ replicate n would_block) held ≡ some (plain ps, [])
  unfolding input_get taken
  go [] held ps n l ok h e = rw (sym (append-nil held) ∙ e) (drain n ps l h)
  go (broken ∷ rs) held ps n l ok h e = absurd cc
  go (would_block ∷ rs) held ps n l ok h e =
      take_then would_block (rs ++ replicate n would_block) held held
        (taken codec rs (take_chunk codec held).held) ps n refl e l h
        (λ b qs same e' l' h'.
          go rs b qs n l' ok.1 h' (subst (λ x. b ++ taken codec rs x ≡ stream qs) same e'))
  go (received bytes ∷ rs) held ps n l ok h e =
      let held' = held ++ in_room held bytes in
      let more = taken codec rs (take_chunk codec held').held in
      take_then (received bytes) (rs ++ replicate n would_block) held held' more ps n refl
        (append_assoc held (in_room held bytes) more ∙ e) l h
        (λ b qs same e' l' h'.
          go rs b qs n l' ok.1 h' (subst (λ x. b ++ taken codec rs x ≡ stream qs) same e'))

  -- However the frames of coded chunks come in, in pieces of any sizes, with calls that bring nothing in
  -- between: if no call fails, what the calls take are all the frames, and there is a call more for each chunk, then
  -- the calls get all the chunks, without their attributes, in order, and no byte is left.
  pub input_all-stream :
      (rs : List Recv) (ps : List Coded)
      → All (λ r. is_broken r ≡ false) rs
      → All (IsCode codec) ps
      → taken codec rs [] ≡ stream ps
      → input_all codec (rs ++ replicate (length ps) would_block) [] ≡ some (plain ps, [])
  input_all-stream rs ps ok h e = go rs [] ps (length ps) (omega arith) ok h e
