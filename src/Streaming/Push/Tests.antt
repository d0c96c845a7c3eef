-- ===== src/Streaming/Push/Tests.antt =====
-- Runs of `send_chunk` and `generated_chunk` of streaming.c.
use streamers.Common.{ℕ, ◌*◌, ◌≡◌, refl, true, false, some, List, [], ◌∷◌, map}
use streamers.Chunk.{Chunk, absent, block}
use streamers.Grapes.First.{first_scheduler}
use streamers.Grapes.Lists.{list_sets, list_buffers}
use streamers.Streaming.Needs.{
  Peer, cb_size_time_unlimited, needs, set_needs, too_old, get_chunk_timestamp,
}
use streamers.Streaming.Attributes.{
  chunk_attributes_fill, chunk_attributes_update_sending, update_chunk,
}
use streamers.Streaming.Receive.{StreamConfig}
use streamers.Streaming.Push.{
  Pushing, Pushed, finished, fault, note_pushed, push_one, push_loop, selected_pairs, send_chunk,
  send_chunks, generated_chunk, got, generated,
}
use streamers.Streaming.Push.Noted.{Pushes}
use streamers.Streaming.Push.Once.{send_chunks-Pushes}

abbrev chunk_of : ℕ → Chunk
chunk_of id = record { id = id; timestamp = 100 * id; payload = id ∷ []; attributes = absent }

-- A peer that has chunk 6, and two that do not.
abbrev peer_of : ℕ → List ℕ → Peer list_sets
peer_of id bmap = record {
  id = id;
  bmap = some bmap;
  cb_size = 50;
  bmap_timestamp = record { tv_sec = 10; tv_usec = 0 };
}

abbrev source : StreamConfig
source = record {
  cb_size = 50;
  bcast_after_receive_every = 0;
  is_source = true;
  neighbours = 1 ∷ 2 ∷ 3 ∷ [];
}

abbrev begin : Pushing list_sets
begin = record {
  neighbours = peer_of 1 (6 ∷ []) ∷ peer_of 2 (5 ∷ []) ∷ peer_of 3 [] ∷ [];
  cb = chunk_of 5 ∷ chunk_of 6 ∷ [];
  sent = [];
  messages = [];
  reports = [];
}

abbrev pushed_to : Pushed list_sets → List (ℕ × ℕ)
pushed_to (finished s) = map (λ x. (x.0, x.1.id)) s.sent
pushed_to fault = []

-- Of four calls the first two push chunk 6, to the two that do not have it.
pushed_run :
    pushed_to (
      send_chunks list_sets list_buffers source first_scheduler cb_size_time_unlimited false
        (λ n i. true)
        (λ n. 0)
        4
        begin)
    ≡ (2, 6) ∷ (1, 6) ∷ []
unfolding send_chunks send_chunk selected_pairs push_loop push_one note_pushed needs set_needs
    too_old get_chunk_timestamp chunk_attributes_update_sending update_chunk
pushed_run = refl

generated_run :
    generated_chunk (got 40000 (some (chunk_of 7)))
    ≡ generated 40000 (
        some (record {
          id = 7;
          timestamp = 700;
          payload = 7 ∷ [];
          attributes = block (record { deadline = 7; deadline_increment = 2; hopcount = 0 });
        }))
unfolding generated_chunk chunk_attributes_fill
generated_run = refl

send_chunks-Pushes_example : Pushes list_sets (6 ∷ 5 ∷ []) 4 (
    send_chunks list_sets list_buffers source first_scheduler cb_size_time_unlimited true
      (λ n i. true)
      (λ n. 0)
      4
      begin)
send_chunks-Pushes_example =
    send_chunks-Pushes list_sets list_buffers source first_scheduler cb_size_time_unlimited true
      (λ n i. true) (λ n. 0) 4 begin ((6 ∷ [], refl), ((5 ∷ [], refl), (([], refl), tt))) refl
