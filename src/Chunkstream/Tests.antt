-- ===== src/Chunkstream/Tests.antt =====
-- Chunks through a stream.
use mathlib.Core.Path.{subst}
use streamers.Common.{
  ℕ, zero, suc, ◌≤◌, ◌≡◌, refl, sym, ap, ◌∙◌, false, Option, none, some, List, [], ◌∷◌, ◌++◌, arith,
  min, if◌then◌else◌, leb, ◌*◌, length, replicate, Bool-cases, inl, inr,
}
use streamers.Chunk.{Chunk, Attributes, absent, block, chunker, strange}
use streamers.Chunkstream.{Codec, frame}
use streamers.Chunkstream.Input.{
  Recv, received, would_block, without_attributes, input_all, in_room, take_chunk, is_whole,
}
use streamers.Chunkstream.Input.Frames.{taken}
use streamers.Chunkstream.Input.Stuck.{input_all-undecodable}
use streamers.Chunkstream.Output.{
  Sender, Connecting, Wrote, wrote, stalled, output_connect, out_stream_init, queue, fits,
  send_pending, write_out, is_closed, chunk_write, write_all,
}
use streamers.Chunkstream.Output.Sent.{Goes, Opened}
use streamers.Chunkstream.Through.{input_all-write_all, unfit_lem}

-- A codec of chunks of 20 numbers at most.
abbrev code_of : Attributes → List ℕ → List ℕ
code_of absent rest = 0 ∷ rest
code_of (block a) rest = 1 ∷ a.deadline ∷ a.deadline_increment ∷ a.hopcount ∷ rest
code_of (chunker n) rest = 2 ∷ n ∷ rest
code_of (strange n) rest = 3 ∷ n ∷ rest

abbrev code : Chunk → List ℕ
code c = code_of c.attributes (c.id ∷ c.timestamp ∷ c.payload)

abbrev body : Attributes → List ℕ → Option Chunk
body a (i ∷ t ∷ payload) =
    some (record { id = i; timestamp = t; payload = payload; attributes = a })
body a _ = none

abbrev decode : List ℕ → Option Chunk
decode (zero ∷ rest) = body absent rest
decode (suc zero ∷ d ∷ i ∷ h ∷ rest) =
    body (block (record { deadline = d; deadline_increment = i; hopcount = h })) rest
decode (suc (suc zero) ∷ n ∷ rest) = body (chunker n) rest
decode (suc (suc (suc zero)) ∷ n ∷ rest) = body (strange n) rest
decode _ = none

abbrev encode : Chunk → ℕ → Option (List ℕ)
encode c room = if leb (length (code c)) (min room 20) then some (code c) else none

decode-code_of :
    (a : Attributes) (i t : ℕ) (payload : List ℕ)
    → decode (code_of a (i ∷ t ∷ payload))
      ≡ some (record { id = i; timestamp = t; payload = payload; attributes = a })
decode-code_of absent i t payload = refl
decode-code_of (block a) i t payload = refl
decode-code_of (chunker n) i t payload = refl
decode-code_of (strange n) i t payload = refl

decode-code : (c : Chunk) → decode (code c) ≡ some c
decode-code c = decode-code_of c.attributes c.id c.timestamp c.payload

encode_lem :
    (c : Chunk) (room : ℕ) (bytes : List ℕ)
    → encode c room ≡ some bytes
    → (bytes ≡ code c) × (length bytes ≤ room)
encode_lem c room bytes e = elim (Bool-cases (leb (length (code c)) (min room 20))) [
  | inl fits ↦
      let same : some (code c) ≡ some bytes = rw (fits) at e in
      let bytes_are : code c ≡ bytes = cc in
      (sym bytes_are, subst (λ b. length b ≤ room) bytes_are (ground arith))
  | inr large ↦ let no_code : none ≡ some bytes = rw (large) at e in absurd cc
]

abbrev codec : Codec
codec = record {
  encode = encode;
  decode = decode;
  decode-encode =
      λ c room {code = bytes} e. ap decode (encode_lem c room bytes e).0 ∙ decode-code c;
  length-encode = λ c room {code = bytes} e. (encode_lem c room bytes e).1;
}

abbrev sys : Connecting
sys = record { is_tcp = λ name. false; socket = none; open_file = λ name. some 3 }

abbrev chunk : ℕ → Chunk
chunk i = record { id = i; timestamp = 10 * i; payload = i ∷ i ∷ []; attributes = chunker 2 }

abbrev large : Chunk
large = record { id = 9; timestamp = 90; payload = replicate 30 1; attributes = absent }

-- The first write takes seven bytes, the second none, the third all that waits.
abbrev writes : List (Chunk × Wrote)
writes = (chunk 5, wrote 7) ∷ (chunk 6, stalled) ∷ (chunk 7, wrote 100) ∷ []

-- A piece of a size, a call with nothing, all the rest.
abbrev reads : List ℕ → List Recv
reads (a ∷ b ∷ c ∷ rest) = received (a ∷ b ∷ c ∷ []) ∷ would_block ∷ received rest ∷ []
reads _ = []

abbrev sender_of : Option Sender → Sender
sender_of none = out_stream_init sys none
sender_of (some s) = s

-- What the writes leave.
abbrev after : Sender
unfolding write_all chunk_write send_pending queue fits write_out is_closed output_connect
    out_stream_init
after = sender_of (write_all codec sys writes (out_stream_init sys (some [])))

input_all-write_all_example :
    input_all codec (reads after.written ++ replicate 3 would_block) []
    ≡ some (
      without_attributes (chunk 5)
          ∷ without_attributes (chunk 6)
          ∷ without_attributes (chunk 7)
          ∷ [],
      [],
    )
unfolding write_all chunk_write send_pending queue fits write_out is_closed output_connect
    out_stream_init Goes Opened taken in_room take_chunk is_whole
input_all-write_all_example =
    input_all-write_all codec sys (some []) writes after (reads after.written) (3, refl)
      (
        (code (chunk 5), refl, λ e. cc, omega arith),
        refl,
        (
          (code (chunk 6), refl, λ e. cc, omega arith),
          refl,
          ((code (chunk 7), refl, λ e. cc, omega arith), refl, tt),
        ),
      )
      refl refl (refl, (refl, (refl, tt))) refl

unfit_lem_example :
    input_all codec (received (255 ∷ 255 ∷ []) ∷ received (255 ∷ frame (code (chunk 5))) ∷ []) []
    ≡ some ([], 255 ∷ 255 ∷ 255 ∷ frame (code (chunk 5)))
unfolding queue
unfit_lem_example =
    unfit_lem codec large (received (255 ∷ 255 ∷ []) ∷ received (255 ∷ frame (code (chunk 5))) ∷ [])
      (frame (code (chunk 5))) refl (refl, (refl, tt)) (omega arith) refl

input_all-undecodable_example :
    input_all codec (would_block ∷ received (frame (code (chunk 5))) ∷ []) (frame (8 ∷ 8 ∷ []))
    ≡ some ([], frame (8 ∷ 8 ∷ []) ++ frame (code (chunk 5)))
input_all-undecodable_example =
    input_all-undecodable codec (would_block ∷ received (frame (code (chunk 5))) ∷ [])
      (frame (8 ∷ 8 ∷ [])) (8 ∷ 8 ∷ []) (frame (code (chunk 5))) refl (omega arith) (omega arith)
      (refl, (refl, tt)) refl
