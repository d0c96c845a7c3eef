-- ===== src/Streamer.antt =====
-- streamer.c: the command line. `getopt_long` is the C library's: what it finds is a list of options with their
-- arguments. Streamer.Launch has `main`.
pub mod Launch
use streamers.Common.{
  ℕ, suc, ◌-◌, ◌*◌, ◌/◌, ◌%◌, ◌^◌, Bool, true, false, not, Option, none, some, List, [], ◌∷◌, ◌++◌,
  if◌then◌else◌, ◌==◌, ◌||◌, ℤ, pos, negsuc, Text, codes, atoi, minus,
}

-- What strtod and atof read, and the product by 1024; `strtod` also gives the text behind the number, or sets errno.
pub record Doubles : Type 1 where
  pub D : Type 0
  pub atof : Text → D
  pub strtod : Text → Option (D × Text)
  pub times_1024 : D → D

-- The options with one letter, a big letter as `big_`; `getopt_long` also accepts `l`, and gives `?` for what it does
-- not know.
pub data ShortOption : Type 0 where
  opt_a opt_r opt_b opt_o opt_c opt_m opt_p opt_i opt_big_p opt_big_i opt_f opt_big_f opt_big_c
        opt_n opt_big_n opt_big_m opt_t opt_big_s opt_s opt_e opt_v opt_l opt_unknown :
      ShortOption

-- `long_options`
pub data LongOption : Type 0 where
  opt_chunk_log opt_measure_start opt_measure_every opt_playout_limit opt_randomize_start :
      LongOption
  opt_capacity_override opt_desired_bw opt_topo_mem opt_topo_in opt_topo_out : LongOption
  opt_topo_bidir opt_topo_keep_best opt_topo_add_best opt_autotune_period : LongOption

pub data Given : Type 0 where
  long : LongOption → Given
  short : ShortOption → Given

pub is_zero_int : ℤ → Bool
is_zero_int (pos n) = n == 0
is_zero_int (negsuc n) = false

-- A negative `int` in the 64 bits of CB_SIZE_TIME.
unsigned : ℤ → ℕ
unsigned (pos n) = n % 2 ^ 64
unsigned (negsuc n) = 2 ^ 64 - 1 - n

module _ (doubles : Doubles) where
  open doubles use {D, atof, strtod, times_1024}

  -- The global variables that options set. `alpha_percent` is 100 times alpha_target, `desired_rtt_ms` is 1000 times
  -- desired_rtt; `none` is NULL, NAN, or what another file sets in the beginning.
  pub record Settings : Type 0 where
    pub chunk_log : Bool
    pub tstartdiff : Option ℤ
    pub print_tdiff : Option ℤ
    pub cb_size_time : Option ℕ
    pub randomize_start : ℤ
    pub capacity_override : Option D
    pub desired_bw : Option D
    pub topo_mem : Option D
    pub topo_in : Bool
    pub topo_out : Bool
    pub topo_keep_best : Bool
    pub topo_add_best : Bool
    pub autotune_period : Bool
    pub alpha_percent : Option ℤ
    pub desired_rtt_ms : Option ℤ
    pub buff_size : ℤ
    pub outbuff_size : ℤ
    pub chunks_per_second : ℤ
    pub multiply : ℤ
    pub srv_port : ℤ
    pub srv_ip : Text
    pub port : ℤ
    pub my_iface : Option Text
    pub fname : Text
    pub output_config : Text
    pub channel : Option Text
    pub net_helper_config : Text
    pub peername : Option Text
    pub neighborhood_target_size : Option ℤ
    pub topo_config : Text
    pub initial_id : ℤ
    pub start_id : ℤ
    pub end_id : ℤ

  -- What the variables hold in the beginning.
  pub settings_start : Settings
  settings_start = record {
    chunk_log = false;
    tstartdiff = none;
    print_tdiff = none;
    cb_size_time = none;
    randomize_start = pos 0;
    capacity_override = none;
    desired_bw = none;
    topo_mem = none;
    topo_in = true;
    topo_out = true;
    topo_keep_best = false;
    topo_add_best = false;
    autotune_period = true;
    alpha_percent = none;
    desired_rtt_ms = none;
    buff_size = pos 50;
    outbuff_size = pos 75;
    chunks_per_second = pos 25;
    multiply = pos 3;
    srv_port = pos 0;
    srv_ip = [];
    port = pos 6666;
    my_iface = none;
    fname = codes "/dev/stdin";
    output_config = [];
    channel = none;
    net_helper_config = [];
    peername = none;
    neighborhood_target_size = none;
    topo_config = [];
    initial_id = negsuc 0;
    start_id = negsuc 0;
    end_id = negsuc 0;
  }

  -- `none` is the exit on an error. The cases of the letters fall through.
  pub atod_kmg : Text → Option D
  atod_kmg s = elim (strtod s) [
    | none ↦ none
    | some (d, []) ↦ some d
    | some (d, e ∷ es) ↦
        if e == b'g' || e == b'G'
        then some (times_1024 (times_1024 (times_1024 d)))
        else if e == b'm' || e == b'M'
        then some (times_1024 (times_1024 d))
        else if e == b'k' || e == b'K'
        then some (times_1024 d)
        else none
  ]

  pub data Parsed : Type 0 where
    exited : ℤ → Parsed
    parsed : Settings → Parsed

  pub set_long : LongOption → Text → Settings → Parsed
  unfolding atod_kmg unsigned is_zero_int
  set_long opt_chunk_log arg s = parsed (record s { chunk_log = true })
  set_long opt_measure_start arg s = parsed (record s { tstartdiff = some (atoi arg) })
  set_long opt_measure_every arg s = parsed (record s { print_tdiff = some (atoi arg) })
  set_long opt_playout_limit arg s = parsed (record s { cb_size_time = some (unsigned (atoi arg)) })
  set_long opt_randomize_start arg s = parsed (record s { randomize_start = atoi arg })
  set_long opt_capacity_override arg s = elim (atod_kmg arg) [
    | none ↦ exited (negsuc 0)
    | some d ↦ parsed (record s { capacity_override = some d })
  ]
  set_long opt_desired_bw arg s = elim (atod_kmg arg) [
    | none ↦ exited (negsuc 0)
    | some d ↦ parsed (record s { desired_bw = some d })
  ]
  set_long opt_topo_mem arg s = parsed (record s { topo_mem = some (atof arg) })
  set_long opt_topo_in arg s = parsed (record s { topo_in = true; topo_out = false })
  set_long opt_topo_out arg s = parsed (record s { topo_in = false; topo_out = true })
  set_long opt_topo_bidir arg s = parsed (record s { topo_in = true; topo_out = true })
  set_long opt_topo_keep_best arg s = parsed (record s { topo_keep_best = true })
  set_long opt_topo_add_best arg s = parsed (record s { topo_add_best = true })
  set_long opt_autotune_period arg s =
      parsed (record s { autotune_period = not (is_zero_int (atoi arg)) })

  pub set_short : ShortOption → Text → Settings → Parsed
  set_short opt_a arg s = parsed (record s { alpha_percent = some (atoi arg) })
  set_short opt_r arg s = parsed (record s { desired_rtt_ms = some (atoi arg) })
  set_short opt_b arg s = parsed (record s { buff_size = atoi arg })
  set_short opt_o arg s = parsed (record s { outbuff_size = atoi arg })
  set_short opt_c arg s = parsed (record s { chunks_per_second = atoi arg })
  set_short opt_m arg s = parsed (record s { multiply = atoi arg })
  set_short opt_p arg s = parsed (record s { srv_port = atoi arg })
  set_short opt_i arg s = parsed (record s { srv_ip = arg })
  set_short opt_big_p arg s = parsed (record s { port = atoi arg })
  set_short opt_big_i arg s = parsed (record s { my_iface = some arg })
  set_short opt_f arg s = parsed (record s { fname = arg })
  set_short opt_big_f arg s = parsed (record s { output_config = arg })
  set_short opt_big_c arg s = parsed (record s { channel = some arg })
  set_short opt_n arg s = parsed (record s { net_helper_config = arg })
  set_short opt_big_n arg s = parsed (record s { peername = some arg })
  set_short opt_big_m arg s = parsed (record s { neighborhood_target_size = some (atoi arg) })
  set_short opt_t arg s = parsed (record s { topo_config = arg })
  set_short opt_big_s arg s = parsed (record s { initial_id = atoi arg })
  set_short opt_s arg s = parsed (record s { start_id = atoi arg })
  set_short opt_e arg s = parsed (record s { end_id = atoi arg })
  set_short opt_v arg s = exited (pos 0)
  set_short opt_l arg s = exited (negsuc 0)
  set_short opt_unknown arg s = exited (negsuc 0)

  pub set_option : Given → Text → Settings → Parsed
  unfolding set_long set_short
  set_option (long o) arg s = set_long o arg s
  set_option (short o) arg s = set_short o arg s

  pub set_options : List (Given × Text) → Settings → Parsed
  unfolding set_option
  set_options [] s = parsed s
  set_options ((o, arg) ∷ opts) s = elim (set_option o arg s) [
    | exited code ↦ exited code
    | parsed s' ↦ set_options opts s'
  ]

  -- `if (!channel_get_name()) channel_set_name("generic")`
  pub name_channel : Settings → Settings
  name_channel s = elim s.channel [
    | none ↦ record s { channel = some (codes "generic") }
    | some name ↦ s
  ]

  pub cmdline_parse : List (Given × Text) → Parsed
  unfolding settings_start set_options name_channel
  cmdline_parse opts = elim (set_options opts settings_start) [
    | exited code ↦ exited code
    | parsed s ↦ parsed (name_channel s)
  ]
