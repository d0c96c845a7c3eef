-- ===== src/Streamer/Launch/Tests.antt =====
-- Command lines of a source and of a receiving peer.
use streamers.Common.{
  ℕ, ◌*◌, ◌≡◌, refl, true, none, some, List, [], ◌∷◌, if◌then◌else◌, negsuc, Text, codes, is_digit,
  read_digits, skip_spaces,
}
use streamers.Streamer.{
  Doubles, Given, long, short, opt_p, opt_i, opt_l, opt_c, opt_capacity_override, is_zero_int,
  Settings, settings_start, atod_kmg, Parsed, exited, parsed, set_long, set_short, set_option,
  set_options, name_channel, cmdline_parse,
}
use streamers.Streamer.Launch.{returned, divided_by_zero, am_i_source, run_loop, main}
use streamers.Streamer.Launch.Role.{as_peer, roles_of, main_roles}

abbrev behind_digits : Text → Text
behind_digits [] = []
behind_digits (c ∷ cs) = if is_digit c then behind_digits cs else c ∷ cs

-- Whole numbers in the place of doubles.
abbrev whole : Doubles
whole = record {
  D = ℕ;
  atof = λ t. read_digits 0 (skip_spaces t);
  strtod = λ t. some (read_digits 0 t, behind_digits t);
  times_1024 = λ n. n * 1024;
}

kmg_run : atod_kmg whole (codes "3M") ≡ some (3 * 1024 * 1024)
unfolding atod_kmg
kmg_run = refl

kmg_strange_run : atod_kmg whole (codes "3x") ≡ none
unfolding atod_kmg
kmg_strange_run = refl

-- `l` is among the letters that `getopt_long` accepts, but `cmdline_parse` knows it as little as any other.
letter_l_run : main whole true true ((short opt_l, []) ∷ []) ≡ returned (negsuc 0) []
unfolding main cmdline_parse set_options set_option set_short
letter_l_run = refl

-- Nothing looks at the number of chunks per second before the division.
no_rate_run :
    main whole true true ((short opt_p, codes "80") ∷ (short opt_c, codes "0") ∷ [])
    ≡ divided_by_zero
unfolding main cmdline_parse settings_start set_options set_option set_short name_channel
    am_i_source is_zero_int run_loop
no_rate_run = refl

abbrev peer_line : List (Given × Text)
peer_line =
    (short opt_i, codes "10.0.0.1")
    ∷ (short opt_p, codes "6667")
    ∷ (long opt_capacity_override, codes "2k")
    ∷ []

abbrev settings_of : Parsed whole → Settings whole
settings_of (exited code) = settings_start whole
settings_of (parsed s) = s

main_roles_example : roles_of (main whole true true peer_line) ≡ as_peer ∷ []
unfolding is_zero_int cmdline_parse settings_start set_options set_option set_short set_long
    atod_kmg name_channel
main_roles_example =
    main_roles whole peer_line {s = settings_of (cmdline_parse whole peer_line)} refl refl
