-- ===== src/Chunkstream/Input.antt =====
-- input-chunkstream.c: `input_open`, and `input_get`, which takes what `recv` brings into its buffer and
-- a chunk out of it. Of `recvbuf` the first `pos` bytes are the state.
pub mod Frames
pub mod Stuck
use streamers.Common.{
  ℕ, ◌+◌, ◌-◌, ◌<◌, Bool, true, false, Option, none, some, List, [], ◌∷◌, ◌++◌, if◌then◌else◌, ltb,
  leb, length, take, drop,
}
use streamers.Chunk.{Chunk, absent}
use streamers.Chunkstream.{Codec, bufsize, ntohl, before_comma}

-- What `recv` finds: the bytes that came, of which it takes as many as there is room for (no bytes also at
-- the end of the stream); -1 with EAGAIN or EWOULDBLOCK; or -1 with another error.
pub data Recv : Type 0 where
  received : List ℕ → Recv
  would_block broken : Recv

-- The chunk that `c` holds when the call returns, the bytes that stay in the buffer, and whether it
-- returns 0 and not INT_MAX.
pub record Got : Type 0 where
  pub chunk : Option Chunk
  pub held : List ℕ
  pub again : Bool

-- The test for another chunk in the buffer, at the end of `input_get`.
unfoldable pub is_whole : List ℕ → Bool
is_whole held = if ltb (length held) 4 then false else leb (4 + ntohl held) (length held)

-- The attributes are freed.
unfoldable pub without_attributes : Chunk → Chunk
without_attributes c = record c { attributes = absent }

-- What `input_get` does behind `recv`.
unfoldable pub take_chunk : Codec → List ℕ → Got
unfolding is_whole without_attributes
take_chunk codec held = elim (ltb (length held) 4) [
  | true ↦ record { chunk = none; held = held; again = false }
  | false ↦
      let size = ntohl held in
      elim (leb (4 + size) (length held)) [
        | true ↦ elim (codec.decode (take size (drop 4 held))) [
          | none ↦ record { chunk = none; held = held; again = false }
          | some c ↦
              let rest = drop (4 + size) held in
              record { chunk = some (without_attributes c); held = rest; again = is_whole rest }
        ]
        | false ↦ record { chunk = none; held = held; again = is_whole held }
      ]
]

-- What `recv` takes of the bytes that came: the room is BUFSIZE - pos.
unfoldable pub in_room : List ℕ → List ℕ → List ℕ
in_room held bytes = take (bufsize - length held) bytes

-- `none` is the exit of the program.
unfoldable pub input_get : Codec → Recv → List ℕ → Option Got
unfolding take_chunk in_room
input_get codec (received bytes) held = some (take_chunk codec (held ++ in_room held bytes))
input_get codec would_block held = some (take_chunk codec held)
input_get codec broken held = none

-- The calls of `input_get` in order: the chunks that they got, and the bytes that stay.
unfoldable pub input_all : Codec → List Recv → List ℕ → Option (List Chunk × List ℕ)
unfolding input_get
input_all codec [] held = some ([], held)
input_all codec (r ∷ rs) held = elim (input_get codec r held) [
  | none ↦ none
  | some got ↦ elim (input_all codec rs got.held) [
    | none ↦ none
    | some (cs, rest) ↦ some (elim got.chunk [ none ↦ cs | some c ↦ c ∷ cs ], rest)
  ]
]

-- What the calls of the system return when `input_open` makes them, a negative descriptor being `none`:
-- `socket`, `bind` and `listen` (whether they succeed), `accept`, and `open` of a name.
pub record Opening : Type 0 where
  pub socket : Option ℕ
  pub bind : Bool
  pub listen : Bool
  pub accept : Option ℕ
  pub open_file : List ℕ → Option ℕ

-- The descriptor that `input_open` keeps and puts into `fds[0]`; `is_tcp` is whether `sscanf` finds an
-- address and a port in a name.
pub input_open : (is_tcp : List ℕ → Bool) → Opening → Option (List ℕ) → Option ℕ
input_open is_tcp sys none = some 0
input_open is_tcp sys (some fname) =
    let name = before_comma fname in
    if is_tcp name
    then elim sys.socket [
      | none ↦ none
      | some accept_fd ↦ if sys.bind then if sys.listen then sys.accept else none else none
    ]
    else sys.open_file name
