-- ===== src/Config/Tests.antt =====
-- A configuration through a file.
use streamers.Common.{
  ℕ, suc, ◌≡◌, refl, true, some, [], ◌∷◌, ◌++◌, arith, pos, negsuc, codes, skip_spaces, read_digits,
  put_digits,
}
use streamers.Config.{
  Floats, Config, config_entries, config_parse_entry, match_line, take_line, load_lines,
  config_load, config_dump,
}
use streamers.Config.Dump.{config_load-config_dump}
use streamers.Config.Entries.{IsLine-of_any}
use streamers.Config.Lost.{config_load-unknown}

-- Whole numbers in the place of floats.
abbrev whole : Floats
whole = record {
  F = ℕ;
  atof = λ t. read_digits 0 (skip_spaces t);
  show = λ n. put_digits (suc n) n [];
}

abbrev zeros : Config whole
zeros = record {
  neighborhood_target_size = pos 0;
  alto_server = [];
  alto_factor = 0;
  alto_pri_criterion = pos 0;
  alto_sec_criterion = pos 0;
  update_interval = pos 0;
}

abbrev town : Config whole
town = record {
  neighborhood_target_size = pos 20;
  alto_server = codes "alto.example.org 8080";
  alto_factor = 1;
  alto_pri_criterion = pos 2;
  alto_sec_criterion = negsuc 0;
  update_interval = pos 45;
}

-- The second line has no effect, since its entry stands before that of the first line.
order_run :
    ((config_load whole
      (some (codes "update_interval 45" ++ (10 ∷ (codes "alto_pri_criterion 2" ++ (10 ∷ [])))))
      zeros).1
    ).alto_pri_criterion
    ≡ pos 0
unfolding config_load load_lines take_line match_line config_parse_entry
order_run = refl

config_load-config_dump_example :
    config_load whole (some (config_dump whole config_entries town)) zeros ≡ (true, town)
config_load-config_dump_example = config_load-config_dump whole town zeros (record {
  server_line = IsLine-of_any town.alto_server refl;
  server_start = refl;
  factor_line = (refl, tt);
  factor_start = refl;
  factor_back = refl;
  short =
      (omega arith, (omega arith, (omega arith, (omega arith, (omega arith, (omega arith, tt))))));
})

config_load-unknown_example :
    config_load whole (some (codes "neighbours 9" ++ (10 ∷ codes "update_interval 45"))) zeros
    ≡ (true, zeros)
config_load-unknown_example =
    config_load-unknown whole b'n' (codes "eighbours 9") (codes "update_interval 45") zeros refl
      refl (IsLine-of_any (codes "neighbours 9") refl) (omega arith)
      (refl, (refl, (refl, (refl, (refl, (refl, tt))))))
