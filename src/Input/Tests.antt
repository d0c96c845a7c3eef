-- ===== src/Input/Tests.antt =====
-- An input of three chunks, 40 ms apart.
use streamers.Common.{
  ℕ, ◌+◌, ◌-◌, ◌*◌, ◌^◌, ◌≡◌, refl, some, List, [], ◌∷◌, arith, pos, negsuc, length, codes,
}
use streamers.Chunk.{absent}
use streamers.Timer.{Timeval, tv2int}
use streamers.Input.{
  InputDesc, opened, input_open, Chunkised, refused, unready, ready, int_of, wait, note_first,
  input_get, input_all,
}
use streamers.Input.Paced.{ids_of, count_from, due, input_all-count_from, input_get-due}

abbrev at : ℕ → Timeval
at usec = record { tv_sec = 100; tv_usec = usec }

abbrev blank : InputDesc
blank = record { id = 0; interframe = 0; start_time = 0; first_ts = 0 }

abbrev desc : InputDesc
desc = record { id = 7; interframe = 40000; start_time = 100000000; first_ts = 0 }

open_run :
    input_open (λ name config. opened 40000 []) (some 7) (at 0) blank (codes "film.avi,loop")
    ≡ some (desc, [])
unfolding input_open tv2int
open_run = refl

-- Descriptors to watch: the id and the times stay as they were in the memory.
watched_run :
    input_open
      (λ name config. opened 0 (5 ∷ []))
      (some 7)
      (at 0)
      (record desc { id = 99 })
      (codes "live")
    ≡ some (record desc { id = 99; interframe = 0 }, 5 ∷ [])
unfolding input_open
watched_run = refl

abbrev film : List (Chunkised × Timeval)
film =
    (ready 500 (1 ∷ []) absent, at 10)
    ∷ (unready 40500, at 40020)
    ∷ (ready 40500 (2 ∷ []) absent, at 40030)
    ∷ (refused, at 80000)
    ∷ (ready 80500 (3 ∷ []) absent, at 80010)
    ∷ []

film_run : ids_of (input_all film desc).0 ≡ 7 ∷ 8 ∷ 9 ∷ []
unfolding input_all input_get note_first
film_run = refl

-- A chunk that is due in more than 2 ^ 31 microseconds makes the result negative, as an error does.
far_run :
    (input_get (unready (3 * 10 ^ 9)) (at 0) (record desc { first_ts = 500 })).0.0
    ≡ negsuc (1294927795)
unfolding input_get note_first wait int_of tv2int
far_run = refl

input_all-count_from_example :
    (ids_of (input_all film desc).0 ≡ count_from 7 (length (ids_of (input_all film desc).0)))
    × ((input_all film desc).1.id ≡ 7 + length (ids_of (input_all film desc).0))
input_all-count_from_example = input_all-count_from film desc

input_get-due_example :
    (input_get (ready 40500 (2 ∷ []) absent) (at 40030) (record desc { first_ts = 500 })).0.0
    ≡ pos (due 40500 (record desc { first_ts = 500 }) - tv2int (at 40030))
unfolding tv2int
input_get-due_example =
    input_get-due (ready 40500 (2 ∷ []) absent) (at 40030) (record desc { first_ts = 500 }) refl
      (omega arith) (omega arith) (omega arith) (omega arith) (omega arith) (omega arith)
      (omega arith)
