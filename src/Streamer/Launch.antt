-- ===== src/Streamer/Launch.antt =====
-- `main` of streamer.c, which runs one of the two main loops, and `am_i_source`.
pub mod Role
mod Tests
use streamers.Common.{
  ℕ, suc, ◌*◌, ◌/◌, Bool, true, false, not, List, [], ◌∷◌, ◌++◌, if◌then◌else◌, ℤ, pos, negsuc,
  Text, minus,
}
use streamers.Streamer.{
  Doubles, Given, is_zero_int, Settings, Parsed, exited, parsed, cmdline_parse,
}

-- The calls of `main` that start the parts, oldest first; and how it ends: with a code, or in a division by 0.
pub data Start : Type 0 where
  random_wait : ℤ → Start
  output_init : ℤ → Text → Start
  topo_add_neighbour : Text → ℤ → Start
  loop : (csize buff_size : ℤ) → Start
  source_loop : (fname : Text) (period : ℕ) (chunks buff_size : ℤ) → Start

pub data Ended : Type 0 where
  returned : ℤ → List Start → Ended
  divided_by_zero : Ended

module _ (doubles : Doubles) where
  pub am_i_source : Settings doubles → Bool
  unfolding is_zero_int
  am_i_source s = is_zero_int s.srv_port

  -- `loop(my_sock, 1000000 / chunks_per_second, buff_size)`
  pub run_loop : Settings doubles → List Start → Ended
  unfolding is_zero_int
  run_loop s before =
      if is_zero_int s.chunks_per_second
      then divided_by_zero
      else let csize : ℤ = elim s.chunks_per_second [
        | pos n ↦ pos (1000000 / n)
        | negsuc n ↦ minus (1000000 / suc n)
      ] in
        returned (pos 0) (before ++ loop csize s.buff_size ∷ [])

  -- `init_ok` and `srv_ok` are whether `init` and `create_node` return a node. `period` is 40: no option sets it.
  pub main : (init_ok srv_ok : Bool) → List (Given × Text) → Ended
  unfolding cmdline_parse am_i_source is_zero_int run_loop
  main init_ok srv_ok opts = elim (cmdline_parse doubles opts) [
    | exited code ↦ returned code []
    | parsed s ↦
        if not init_ok
        then returned (negsuc 0) []
        else if am_i_source s
        then returned (pos 0) (source_loop s.fname (40 * 1000) s.multiply s.buff_size ∷ [])
        else let wait =
            if is_zero_int s.randomize_start then [] else random_wait s.randomize_start ∷ [] in
          let before = wait ++ output_init s.outbuff_size s.output_config ∷ [] in
          if srv_ok
          then run_loop s (before ++ topo_add_neighbour s.srv_ip s.srv_port ∷ [])
          else returned (negsuc 0) before
  ]
