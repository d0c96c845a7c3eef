-- ===== src/Chunkstream/Output.antt =====
-- output-chunkstream.c: `output_connect`, `out_stream_init`, and `chunk_write`, which puts a chunk into its
-- buffer and writes as much of the buffer as goes.
pub mod Sent
use streamers.Common.{
  ℕ, ◌+◌, ◌-◌, leb, Bool, true, false, not, ◌&&◌, Option, none, some, List, [], ◌∷◌, ◌++◌,
  if◌then◌else◌, length, take, drop,
}
use streamers.Chunk.{Chunk}
use streamers.Chunkstream.{Codec, bufsize, frame, before_comma}

-- The static variables: `fname`, whether `mode` is TCP_MODE, `fd` (`none` for -1), the first `pos` bytes of
-- `sendbuf`; and the bytes that were written to the descriptors, in order.
pub record Sender : Type 0 where
  pub fname : Option (List ℕ)
  pub tcp : Bool
  pub fd : Option ℕ
  pub pending : List ℕ
  pub written : List ℕ

-- What `socket` and `open` of a name return (`none` for a negative number), and whether `sscanf` finds an
-- address and a port in a name. What `connect` returns is only printed.
pub record Connecting : Type 0 where
  pub is_tcp : List ℕ → Bool
  pub socket : Option ℕ
  pub open_file : List ℕ → Option ℕ

unfoldable pub output_connect : Connecting → Sender → Sender
output_connect sys s = elim s.fname [
  | none ↦ record s { tcp = false; fd = some 1 }
  | some fname ↦
      let name = before_comma fname in
      if sys.is_tcp name
      then record s { fname = some name; tcp = true; fd = sys.socket }
      else record s { fname = some name; tcp = false; fd = sys.open_file name }
]

unfoldable pub out_stream_init : Connecting → Option (List ℕ) → Sender
unfolding output_connect
out_stream_init sys fn =
    output_connect sys (record { fname = fn; tcp = false; fd = none; pending = []; written = [] })

-- The chunk goes behind the bytes that wait. The -1 of an error is the unsigned number 2 ^ 32 - 1: its
-- four bytes are 255, and `pos` grows by 3.
unfoldable pub queue : Codec → Chunk → List ℕ → List ℕ
queue codec c pending = elim (codec.encode c (bufsize - length pending)) [
  | none ↦ pending ++ (255 ∷ 255 ∷ 255 ∷ [])
  | some [] ↦ pending
  | some (b ∷ code) ↦ pending ++ frame (b ∷ code)
]

-- Whether the size and the code lie in `sendbuf`: the room that `encodeChunk` is given begins behind the four bytes of
-- the size, but is not less by them.
unfoldable pub fits : Codec → Chunk → List ℕ → Bool
fits codec c pending = elim (codec.encode c (bufsize - length pending)) [
  | none ↦ leb (length pending + 4) bufsize
  | some [] ↦ true
  | some (b ∷ code) ↦ leb (length pending + 4 + length (b ∷ code)) bufsize
]

-- What `send` or `write` returns: the number of bytes that it took, -1 with EAGAIN or EWOULDBLOCK, or -1
-- with another error.
pub data Wrote : Type 0 where
  wrote : ℕ → Wrote
  stalled failed : Wrote

unfoldable pub write_out : Wrote → Sender → Sender
write_out (wrote ret) s = record s {
  pending = drop ret s.pending;
  written = s.written ++ take ret s.pending;
}
write_out stalled s = s
write_out failed s = record s { pending = []; fd = none }

unfoldable pub is_closed : Option ℕ → Bool
is_closed none = true
is_closed (some fd) = false

-- What `chunk_write` does behind the encoding.
unfoldable pub send_pending : Connecting → Wrote → Sender → Sender
unfolding write_out is_closed output_connect
send_pending sys result s =
    let s' = if s.tcp && is_closed s.fd then output_connect sys s else s in
    if is_closed s'.fd then s' else write_out result s'

-- `none` is a write behind the end of `sendbuf`.
unfoldable pub chunk_write : Codec → Connecting → Wrote → Chunk → Sender → Option Sender
unfolding queue fits send_pending
chunk_write codec sys result c s =
    if fits codec c s.pending
    then some (send_pending sys result (record s { pending = queue codec c s.pending }))
    else none

-- The calls of `chunk_write` in order, each with what it comes to.
unfoldable pub write_all : Codec → Connecting → List (Chunk × Wrote) → Sender → Option Sender
unfolding chunk_write
write_all codec sys [] s = some s
write_all codec sys ((c, result) ∷ ws) s = elim (chunk_write codec sys result c s) [
  | none ↦ none
  | some s' ↦ write_all codec sys ws s'
]
