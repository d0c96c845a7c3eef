-- ===== src/Streamer/Launch/Role.antt =====
-- Which main loop streamer.c runs, by its command line.
use mathlib.Core.Path.{subst}
use streamers.Common.{
  ◌≡◌, refl, ◌∙◌, true, false, Option, none, some, List, [], ◌∷◌, if◌then◌else◌, inl, inr,
  Bool-cases, Option-cases, ℤ, pos, negsuc, Text, atoi,
}
use streamers.Streamer.{
  Doubles, ShortOption, LongOption, Given, long, short, is_zero_int, Settings, settings_start,
  atod_kmg, Parsed, exited, parsed, set_long, set_short, set_option, set_options, name_channel,
  cmdline_parse, opt_chunk_log, opt_measure_start, opt_measure_every, opt_playout_limit,
  opt_randomize_start, opt_capacity_override, opt_desired_bw, opt_topo_mem, opt_topo_in,
  opt_topo_out, opt_topo_bidir, opt_topo_keep_best, opt_topo_add_best, opt_autotune_period, opt_a,
  opt_r, opt_b, opt_o, opt_c, opt_m, opt_p, opt_i, opt_big_p, opt_big_i, opt_f, opt_big_f,
  opt_big_c, opt_n, opt_big_n, opt_big_m, opt_t, opt_big_s, opt_s, opt_e, opt_v, opt_l, opt_unknown,
}
use streamers.Streamer.Launch.{
  Start, random_wait, output_init, topo_add_neighbour, loop, source_loop, Ended, returned,
  divided_by_zero, am_i_source, run_loop, main,
}

-- The port behind an option: what its argument reads, if it is -p.
abbrev pub port_of : Given → Text → ℤ → ℤ
port_of (short opt_p) arg port = atoi arg
port_of o arg port = port

-- What the last -p reads, or the number before, without one.
abbrev pub last_port : ℤ → List (Given × Text) → ℤ
last_port port [] = port
last_port port ((o, arg) ∷ opts) = last_port (port_of o arg port) opts

pub data Role : Type 0 where
  as_source as_peer : Role

-- The main loops among the calls.
abbrev pub roles : List (Start) → List Role
roles [] = []
roles (loop csize buff_size ∷ starts) = as_peer ∷ roles starts
roles (source_loop fname period chunks buff_size ∷ starts) = as_source ∷ roles starts
roles (random_wait max ∷ starts) = roles starts
roles (output_init size config ∷ starts) = roles starts
roles (topo_add_neighbour ip port ∷ starts) = roles starts

abbrev pub roles_of : Ended → List Role
roles_of (returned code starts) = roles starts
roles_of divided_by_zero = []

module _ (doubles : Doubles) where
  -- If the program has not ended, its port is this one.
  abbrev HasPort : ℤ → Parsed doubles → Type 0
  HasPort port (exited code) = Unit
  HasPort port (parsed s) = s.srv_port ≡ port

  kmg-HasPort :
      (port : ℤ) (change : doubles.D → Settings doubles) (r : Option doubles.D)
      → ((d : doubles.D) → (change d).srv_port ≡ port)
      → HasPort port (elim r [ none ↦ exited (negsuc 0) | some d ↦ parsed (change d) ])
  kmg-HasPort port change none h = tt
  kmg-HasPort port change (some d) h = h d

  set_long-HasPort :
      (o : LongOption) (arg : Text) (s : Settings doubles)
      → HasPort s.srv_port (set_long doubles o arg s)
  unfolding set_long
  set_long-HasPort opt_chunk_log arg s = refl
  set_long-HasPort opt_measure_start arg s = refl
  set_long-HasPort opt_measure_every arg s = refl
  set_long-HasPort opt_playout_limit arg s = refl
  set_long-HasPort opt_randomize_start arg s = refl
  set_long-HasPort opt_capacity_override arg s =
      kmg-HasPort s.srv_port (λ d. record s { capacity_override = some d }) (atod_kmg doubles arg)
        (λ d. refl)
  set_long-HasPort opt_desired_bw arg s =
      kmg-HasPort s.srv_port (λ d. record s { desired_bw = some d }) (atod_kmg doubles arg)
        (λ d. refl)
  set_long-HasPort opt_topo_mem arg s = refl
  set_long-HasPort opt_topo_in arg s = refl
  set_long-HasPort opt_topo_out arg s = refl
  set_long-HasPort opt_topo_bidir arg s = refl
  set_long-HasPort opt_topo_keep_best arg s = refl
  set_long-HasPort opt_topo_add_best arg s = refl
  set_long-HasPort opt_autotune_period arg s = refl

  set_short-HasPort :
      (o : ShortOption) (arg : Text) (s : Settings doubles)
      → HasPort (port_of (short o) arg s.srv_port) (set_short doubles o arg s)
  unfolding set_short
  set_short-HasPort opt_a arg s = refl
  set_short-HasPort opt_r arg s = refl
  set_short-HasPort opt_b arg s = refl
  set_short-HasPort opt_o arg s = refl
  set_short-HasPort opt_c arg s = refl
  set_short-HasPort opt_m arg s = refl
  set_short-HasPort opt_p arg s = refl
  set_short-HasPort opt_i arg s = refl
  set_short-HasPort opt_big_p arg s = refl
  set_short-HasPort opt_big_i arg s = refl
  set_short-HasPort opt_f arg s = refl
  set_short-HasPort opt_big_f arg s = refl
  set_short-HasPort opt_big_c arg s = refl
  set_short-HasPort opt_n arg s = refl
  set_short-HasPort opt_big_n arg s = refl
  set_short-HasPort opt_big_m arg s = refl
  set_short-HasPort opt_t arg s = refl
  set_short-HasPort opt_big_s arg s = refl
  set_short-HasPort opt_s arg s = refl
  set_short-HasPort opt_e arg s = refl
  set_short-HasPort opt_v arg s = tt
  set_short-HasPort opt_l arg s = tt
  set_short-HasPort opt_unknown arg s = tt

  set_option-HasPort :
      (o : Given) (arg : Text) (s : Settings doubles)
      → HasPort (port_of o arg s.srv_port) (set_option doubles o arg s)
  unfolding set_option
  set_option-HasPort (long o) arg s = set_long-HasPort o arg s
  set_option-HasPort (short o) arg s = set_short-HasPort o arg s

  set_options-HasPort :
      (opts : List (Given × Text)) (s : Settings doubles)
      → HasPort (last_port s.srv_port opts) (set_options doubles opts s)
  unfolding set_options
  set_options-HasPort [] s = refl
  set_options-HasPort ((o, arg) ∷ opts) s =
      go (set_option doubles o arg s) (set_option-HasPort o arg s) (set_options-HasPort opts)
    where
      go :
          (r : Parsed doubles)
          → HasPort (port_of o arg s.srv_port) r
          → ((s' : Settings doubles)
              → HasPort (last_port s'.srv_port opts) (set_options doubles opts s'))
          → HasPort
              (last_port (port_of o arg s.srv_port) opts)
              (elim r [ exited code ↦ exited code | parsed s' ↦ set_options doubles opts s' ])
      go (exited code) h k = tt
      go (parsed s') h k =
          subst (λ p. HasPort (last_port p opts) (set_options doubles opts s')) h (k s')

  name_channel_port : (s : Settings doubles) → (name_channel doubles s).srv_port ≡ s.srv_port
  unfolding name_channel
  name_channel_port s = elim (Option-cases s.channel) [
    | inl unset ↦ rw (unset) refl
    | inr (name, set) ↦ rw (set) refl
  ]

  named-HasPort :
      (port : ℤ) (r : Parsed doubles)
      → HasPort port r
      → HasPort port
          (elim r [ exited code ↦ exited code | parsed s ↦ parsed (name_channel doubles s) ])
  named-HasPort port (exited code) h = tt
  named-HasPort port (parsed s) h = name_channel_port s ∙ h

  cmdline_parse-HasPort :
      (opts : List (Given × Text)) → HasPort (last_port (pos 0) opts) (cmdline_parse doubles opts)
  unfolding cmdline_parse settings_start
  cmdline_parse-HasPort opts =
      named-HasPort (last_port (pos 0) opts) (set_options doubles opts (settings_start doubles))
        (set_options-HasPort opts (settings_start doubles))

  -- If the command line is read without an exit, the number of chunks per second is not 0, and the network and the
  -- address of the server are there, then the program runs one main loop: that of the source if there is no -p, or the
  -- last one reads 0; that of a receiving peer otherwise.
  pub main_roles :
      (opts : List (Given × Text)) {s : Settings doubles}
      → cmdline_parse doubles opts ≡ parsed s
      → is_zero_int s.chunks_per_second ≡ false
      → roles_of (main doubles true true opts)
        ≡ (if is_zero_int (last_port (pos 0) opts) then as_source ∷ [] else as_peer ∷ [])
  unfolding main am_i_source run_loop
  main_roles opts {s = s} e rate =
      let port : s.srv_port ≡ last_port (pos 0) opts =
        subst (HasPort (last_port (pos 0) opts)) e (cmdline_parse-HasPort opts) in
      subst
        (λ p.
          roles_of (main doubles true true opts)
          ≡ (if is_zero_int p then as_source ∷ [] else as_peer ∷ []))
        port
        (elim (Bool-cases (is_zero_int s.srv_port)) [
          | inl source ↦ rw (main, e, source) refl
          | inr peer ↦ elim (Bool-cases (is_zero_int s.randomize_start)) [
            | inl now ↦ rw (main, e, peer, now, rate) refl
            | inr later ↦ rw (main, e, peer, later, rate) refl
          ]
        ])
