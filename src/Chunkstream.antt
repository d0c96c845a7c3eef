-- ===== src/Chunkstream.antt =====
-- Streams of chunks, as output-chunkstream.c writes them and input-chunkstream.c reads them: for each
-- chunk the size of its code in four bytes, the highest first, and the code.
pub mod Input
pub mod Output
pub mod Through
mod Tests
use streamers.Common.{
  ℕ, ◌+◌, ◌*◌, ◌/◌, ◌%◌, ◌^◌, ◌≤◌, ◌≡◌, Option, none, some, List, [], ◌∷◌, ◌++◌, length, get_or,
  if◌then◌else◌, ◌==◌,
}
use streamers.Chunk.{Chunk}

-- trade_msg_la.h of GRAPES: `encodeChunk`, with the room of its buffer, which returns the size of the
-- code or -1, and `decodeChunk`, which returns a negative number on an error. What is encoded within
-- the room is decoded to the same chunk.
pub record Codec : Type 0 where
  pub encode : Chunk → ℕ → Option (List ℕ)
  pub decode : List ℕ → Option Chunk
  pub decode-encode :
      (c : Chunk) (room : ℕ) {code : List ℕ} → encode c room ≡ some code → decode code ≡ some c
  pub length-encode :
      (c : Chunk) (room : ℕ) {code : List ℕ} → encode c room ≡ some code → length code ≤ room

-- BUFSIZE
abbrev pub bufsize : ℕ
bufsize = 65536 * 8

-- The four bytes that `*((uint32_t*)p) = htonl(size)` writes.
abbrev pub htonl : ℕ → List ℕ
htonl size =
    size / 2 ^ 24 % 2 ^ 8 ∷ size / 2 ^ 16 % 2 ^ 8 ∷ size / 2 ^ 8 % 2 ^ 8 ∷ size % 2 ^ 8 ∷ []

-- `ntohl(*(uint32_t*)p)`, of the bytes from `p` on
abbrev pub ntohl : List ℕ → ℕ
ntohl bytes =
    get_or bytes 0 0 * 2 ^ 24
    + get_or bytes 1 0 * 2 ^ 16
    + get_or bytes 2 0 * 2 ^ 8
    + get_or bytes 3 0

-- A code with its size before it.
abbrev pub frame : List ℕ → List ℕ
frame code = htonl (length code) ++ code

-- Of a name, what stands before its first comma, which is 44.
abbrev pub before_comma : List ℕ → List ℕ
before_comma [] = []
before_comma (c ∷ cs) = if c == 44 then [] else c ∷ before_comma cs
