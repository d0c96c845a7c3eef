-- ===== src/Chunkstream/Input/Stuck.antt =====
-- Where `input_get` of input-chunkstream.c does not get on: bytes at the front of the stream behind which
-- no chunk ever comes.
use mathlib.Core.Path.{subst, subst⁻¹}
use streamers.Common.{
  ℕ, zero, suc, ◌+◌, ◌-◌, ◌^◌, ◌≤◌, ◌<◌, ◌≡◌, refl, ap, ◌∙◌, sym, true, false, none, some, List, [],
  ◌∷◌, ◌++◌, arith, ltb, leb, length, take, drop, All, length-append, length-take, take_append-drop,
  take-append, append_assoc, append-nil, append_split, Bool-cases, inl, inr,
}
use streamers.Chunkstream.{Codec, ntohl, frame, bufsize}
use streamers.Chunkstream.Input.{
  Recv, received, would_block, broken, in_room, is_whole, take_chunk, input_get, input_all,
}
use streamers.Chunkstream.Input.Frames.{
  ntohl-htonl, ntohl-append, take_chunk-partial, input_all-silent, bytes_of, is_broken,
}

module _ (codec : Codec) where
  -- No beginning of these bytes gives a chunk.
  Blocks : List ℕ → Type 0
  Blocks whole =
      (held more : List ℕ)
      → held ++ more ≡ whole
      → take_chunk codec held ≡ record { chunk = none; held = held; again = false }

  -- Into a full buffer nothing comes any more.
  full :
      (rs : List Recv) (held rest whole : List ℕ)
      → Blocks whole
      → All (λ r. is_broken r ≡ false) rs
      → held ++ rest ≡ whole
      → length held ≡ bufsize
      → input_all codec rs held ≡ some ([], held)
  unfolding input_all input_get in_room Blocks
  full [] held rest whole b ok e l = refl
  full (broken ∷ rs) held rest whole b ok e l = absurd cc
  full (would_block ∷ rs) held rest whole b ok e l =
      input_all-silent codec would_block rs held held [] held (ap some (b held rest e))
        (full rs held rest whole b ok.1 e l)
  full (received bytes ∷ rs) held rest whole b ok e l =
      let none_left : bufsize - length held ≡ 0 = omega arith in
      let nothing : held ++ take (bufsize - length held) bytes ≡ held =
        ap (λ n. held ++ take n bytes) none_left ∙ append-nil held in
      input_all-silent codec (received bytes) rs held held [] held
        (ap (λ h. some (take_chunk codec h)) nothing ∙ ap some (b held rest e))
        (full rs held rest whole b ok.1 e l)

  take_all : (n : ℕ) (bytes : List ℕ) → length bytes ≤ n → take n bytes ≡ bytes
  take_all zero [] h = refl
  take_all (suc n) [] h = refl
  take_all zero (x ∷ bytes) h = absurd (omega arith)
  take_all (suc n) (x ∷ bytes) h = ap (λ l. x ∷ l) (take_all n bytes (omega arith))

  take-prefix :
      (held rest whole : List ℕ) (n : ℕ)
      → held ++ rest ≡ whole
      → length held ≡ n
      → take n whole ≡ held
  take-prefix held rest whole n e l =
      ap (λ n. take n whole) (sym l) ∙ ap (take (length held)) (sym e) ∙ take-append held rest

  -- Where no beginning of the bytes gives a chunk, as many of them stay as the buffer holds.
  blocked :
      (rs : List Recv) (held whole : List ℕ)
      → Blocks whole
      → All (λ r. is_broken r ≡ false) rs
      → held ++ bytes_of rs ≡ whole
      → length held ≤ bufsize
      → input_all codec rs held ≡ some ([], take bufsize whole)
  unfolding input_all input_get in_room Blocks
  blocked [] held whole b ok e l =
      let same = sym (append-nil held) ∙ e in
      ap (λ h. some ([], h)) (sym (take_all bufsize held l) ∙ ap (take bufsize) same)
  blocked (broken ∷ rs) held whole b ok e l = absurd cc
  blocked (would_block ∷ rs) held whole b ok e l =
      input_all-silent codec would_block rs held held [] (take bufsize whole)
        (ap some (b held (bytes_of rs) e)) (blocked rs held whole b ok.1 e l)
  blocked (received bytes ∷ rs) held whole b ok e l =
      let room = bufsize - length held in
      let e' = append_assoc held bytes (bytes_of rs) ∙ e in
      elim (Bool-cases (leb (length bytes) room)) [
        | inl all_of ↦
            let cut : take room bytes ≡ bytes = take_all room bytes (ground arith) in
            input_all-silent codec (received bytes) rs held (held ++ bytes) [] (take bufsize whole)
              (ap (λ c. some (take_chunk codec (held ++ c))) cut
                ∙ ap some (b (held ++ bytes) (bytes_of rs) e'))
              (blocked rs (held ++ bytes) whole b ok.1 e'
                (ground (arith, length-append held bytes)))
        | inr part ↦
            let some_of = take room bytes in
            let rest = drop room bytes ++ bytes_of rs in
            let filled : length (held ++ some_of) ≡ bufsize =
              ground (arith, length-append held some_of, length-take room bytes) in
            let e'' : (held ++ some_of) ++ rest ≡ whole =
              append_assoc held some_of rest
              ∙ ap (λ l. held ++ l) (sym (append_assoc some_of (drop room bytes) (bytes_of rs)))
              ∙ ap (λ l. held ++ (l ++ bytes_of rs)) (take_append-drop room bytes)
              ∙ e in
            input_all-silent codec (received bytes) rs held (held ++ some_of) []
              (take bufsize whole) (ap some (b (held ++ some_of) rest e''))
              (full rs (held ++ some_of) rest whole b ok.1 e'' filled
                ∙ ap (λ h. some ([], h))
                    (sym (take-prefix (held ++ some_of) rest whole bufsize e'' filled)))
      ]

  take_chunk-undecodable :
      (code more : List ℕ)
      → codec.decode code ≡ none
      → length code < 2 ^ 32
      → take_chunk codec (frame code ++ more)
        ≡ record { chunk = none; held = frame code ++ more; again = false }
  unfolding take_chunk
  take_chunk-undecodable code more d f =
      let bytes : List ℕ = frame code ++ more in
      let sum = length-append code more in
      let long : ltb (length bytes) 4 ≡ false = ground arith in
      let size : ntohl bytes ≡ length code = ntohl-htonl (length code) (code ++ more) f in
      let whole : leb (4 + length code) (length bytes) ≡ true = ground (arith, sum) in
      simp (long, size, whole, take-append code more, d, take_chunk) refl

  undecodable-Blocks :
      (code tail : List ℕ)
      → codec.decode code ≡ none
      → length code < 2 ^ 32
      → Blocks (frame code ++ tail)
  unfolding Blocks
  undecodable-Blocks code tail d f held more e =
      elim (Bool-cases (ltb (length held) (length (frame code)))) [
        | inl short ↦ take_chunk-partial codec held more code tail e f (ground arith)
        | inr long ↦
            let (rest, g, k) = append_split (frame code) held tail more e (ground arith) in
            subst⁻¹ (λ h. take_chunk codec h ≡ record { chunk = none; held = h; again = false }) g
              (take_chunk-undecodable code rest d f)
      ]

  -- If the first code of the bytes in the buffer and those that come is one that decodeChunk refuses, then no call gets
  -- a chunk, if none fails: as many of the bytes stay as the buffer holds, the refused ones at the front.
  pub input_all-undecodable :
      (rs : List Recv) (held code tail : List ℕ)
      → codec.decode code ≡ none
      → length code < 2 ^ 32
      → length held ≤ bufsize
      → All (λ r. is_broken r ≡ false) rs
      → held ++ bytes_of rs ≡ frame code ++ tail
      → input_all codec rs held ≡ some ([], take bufsize (frame code ++ tail))
  input_all-undecodable rs held code tail d f l ok e =
      blocked rs held (frame code ++ tail) (undecodable-Blocks code tail d f) ok e l

  three-Blocks :
      (tail : List ℕ) → length (255 ∷ 255 ∷ 255 ∷ tail) ≤ bufsize → Blocks (255 ∷ 255 ∷ 255 ∷ tail)
  unfolding Blocks take_chunk is_whole
  three-Blocks tail l held more e = elim (Bool-cases (ltb (length held) 4)) [
    | inl short ↦ rw (short, take_chunk) refl
    | inr long ↦
        let size : ntohl (255 ∷ 255 ∷ 255 ∷ tail) ≡ ntohl held =
          sym (ap ntohl e) ∙ ntohl-append held more (ground arith) in
        let part : length held + length more ≡ length (255 ∷ 255 ∷ 255 ∷ tail) =
          sym (length-append held more) ∙ ap length e in
        let large : bufsize < ntohl (255 ∷ 255 ∷ 255 ∷ tail) = omega arith in
        let large' : bufsize < ntohl held = subst (λ n. bufsize < n) size large in
        let cut : leb (4 + ntohl held) (length held) ≡ false = ground arith in
        let whole : is_whole held ≡ false = rw (long, is_whole) cut in
        rw (long, take_chunk)
          (rw (cut) (ap (λ w. record { chunk = none; held = held; again = w }) whole))
  ]

  -- Three bytes 255: the size is more than the buffer can hold.
  pub three_lem :
      (rs : List Recv) (tail : List ℕ)
      → All (λ r. is_broken r ≡ false) rs
      → length (255 ∷ 255 ∷ 255 ∷ tail) ≤ bufsize
      → bytes_of rs ≡ 255 ∷ 255 ∷ 255 ∷ tail
      → input_all codec rs [] ≡ some ([], 255 ∷ 255 ∷ 255 ∷ tail)
  three_lem rs tail ok l e =
      blocked rs [] (255 ∷ 255 ∷ 255 ∷ tail) (three-Blocks tail l) ok e (omega arith)
      ∙ ap (λ b. some ([], b)) (take_all bufsize (255 ∷ 255 ∷ 255 ∷ tail) l)
