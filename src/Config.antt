-- ===== src/Config.antt =====
-- config.c: the table of entries, the defaults, the configuration file and the dump. A text is the list of its codes;
-- a file has no NUL. A `float` is what `Floats` says.
pub mod Entries
pub mod Dump
pub mod Lost
mod Tests
use streamers.Common.{
  ℕ, zero, suc, Bool, true, false, Option, none, some, List, [], ◌∷◌, ◌++◌, if◌then◌else◌, ◌==◌,
  length, ℤ, pos, Text, codes, is_space, skip_spaces, atoi, show_int,
}

-- `float`, with `atof`, and what `%f` prints.
pub record Floats : Type 1 where
  pub F : Type 0
  pub atof : Text → F
  pub show : F → Text

-- The place that an entry points to.
pub data Field : Type 0 where
  neighborhood_target_size alto_server alto_factor : Field
  alto_pri_criterion alto_sec_criterion update_interval : Field

-- CONFIG_TYPE_INT, CONFIG_TYPE_FLOAT, CONFIG_TYPE_STRING
pub data ConfigType : Type 0 where
  int_type float_type string_type : ConfigType

-- `ConfigEntry_t`
pub record Entry : Type 0 where
  pub field : Field
  pub string : Text
  pub type_of : ConfigType
  pub default_value : Text

abbrev entry : Field → Text → ConfigType → Text → Entry
entry f name t d = record { field = f; string = name; type_of = t; default_value = d }

-- `config_entries`, without the end marker
abbrev pub config_entries : List Entry
config_entries =
    entry neighborhood_target_size (codes "neighborhood_target_size") int_type (codes "15")
    ∷ entry alto_server (codes "alto_server") string_type []
    ∷ entry alto_factor (codes "alto_factor") float_type (codes "0.8")
    ∷ entry alto_pri_criterion (codes "alto_pri_criterion") int_type (codes "1")
    ∷ entry alto_sec_criterion (codes "alto_sec_criterion") int_type (codes "0")
    ∷ entry update_interval (codes "update_interval") int_type (codes "60")
    ∷ []

-- `strncmp(src, string, len)` is 0; then what follows the name.
abbrev pub behind : Text → Text → Option Text
behind [] src = some src
behind (c ∷ name) [] = none
behind (c ∷ name) (d ∷ src) = let rest = behind name src in if c == d then rest else none

-- `fgets`, with the room for `n` bytes and the final 0: a line, and what follows.
abbrev pub fgets : ℕ → Text → Text × Text
fgets zero cs = ([], cs)
fgets (suc n) [] = ([], [])
fgets (suc n) (c ∷ cs) =
    let rest = fgets n cs in if c == 10 then (c ∷ [], cs) else (c ∷ rest.0, rest.1)

-- `if (p[len-1]=='\n') p[len-1]='\0'`
abbrev pub chop : Text → Text
chop [] = []
chop (c ∷ []) = if c == 10 then [] else c ∷ []
chop (c ∷ d ∷ cs) = c ∷ chop (d ∷ cs)

module _ (floats : Floats) where
  open floats use {F, atof, show}

  -- `Config_t`; the numbers are written and printed as `int`.
  pub record Config : Type 0 where
    pub neighborhood_target_size : ℤ
    pub alto_server : Text
    pub alto_factor : F
    pub alto_pri_criterion : ℤ
    pub alto_sec_criterion : ℤ
    pub update_interval : ℤ

  pub data Value : Type 0 where
    int : ℤ → Value
    float : F → Value
    string : Text → Value

  abbrev pub parse_value : ConfigType → Text → Value
  parse_value int_type v = int (atoi v)
  parse_value float_type v = float (atof v)
  parse_value string_type v = string v

  -- A write through the pointer of an entry; the types of `config_entries` are those of the places.
  abbrev pub store : Field → Value → Config → Config
  store neighborhood_target_size (int z) c = record c { neighborhood_target_size = z }
  store alto_server (string t) c = record c { alto_server = t }
  store alto_factor (float x) c = record c { alto_factor = x }
  store alto_pri_criterion (int z) c = record c { alto_pri_criterion = z }
  store alto_sec_criterion (int z) c = record c { alto_sec_criterion = z }
  store update_interval (int z) c = record c { update_interval = z }
  store _ _ c = c

  -- What is printed of a place.
  abbrev pub show_value : Field → Config → Text
  show_value neighborhood_target_size c = show_int c.neighborhood_target_size
  show_value alto_server c = c.alto_server
  show_value alto_factor c = show c.alto_factor
  show_value alto_pri_criterion c = show_int c.alto_pri_criterion
  show_value alto_sec_criterion c = show_int c.alto_sec_criterion
  show_value update_interval c = show_int c.update_interval

  -- `none` is the 0 for no match.
  unfoldable pub config_parse_entry : Entry → Text → Config → Option Config
  config_parse_entry e src c = elim (behind e.string src) [
    | none ↦ none
    | some [] ↦ none
    | some (s ∷ value) ↦
        if is_space s
        then some (store e.field (parse_value e.type_of (skip_spaces value)) c)
        else none
  ]

  pub config_init : List Entry → Config → Config
  config_init [] c = c
  config_init (e ∷ es) c = config_init es (store e.field (parse_value e.type_of e.default_value) c)

  -- The inner loop of `config_load`: the entries from `e` on; `e` is not set back between lines.
  unfoldable pub match_line : Text → List Entry → Config → List Entry × Config
  unfolding config_parse_entry
  match_line p [] c = ([], c)
  match_line p (e ∷ es) c = elim (config_parse_entry e p c) [
    | some c' ↦ (e ∷ es, c')
    | none ↦ match_line p es c
  ]

  -- A line: comments and empty lines are left out.
  unfoldable pub take_line : Text → List Entry × Config → List Entry × Config
  unfolding match_line
  take_line line (es, c) = elim (skip_spaces line) [
    | [] ↦ (es, c)
    | p ∷ ps ↦ if p == 35 then (es, c) else match_line (chop (p ∷ ps)) es c
  ]

  -- The lines, by rounds, of which one for each byte is enough.
  unfoldable pub load_lines : ℕ → Text → List Entry × Config → List Entry × Config
  unfolding take_line
  load_lines zero text s = s
  load_lines (suc rounds) [] s = s
  load_lines (suc rounds) (b ∷ bs) s =
      let (line, rest) = fgets 511 (b ∷ bs) in load_lines rounds rest (take_line line s)

  -- Whether the file could be opened, and the configuration.
  unfoldable pub config_load : Option Text → Config → Bool × Config
  unfolding load_lines
  config_load none c = (false, c)
  config_load (some text) c = (true, (load_lines (length text) text (config_entries, c)).1)

  -- The name, a blank and the value of an entry.
  abbrev pub dump_line : Entry → Config → Text
  dump_line e c = e.string ++ (32 ∷ show_value e.field c)

  pub config_dump : List Entry → Config → Text
  config_dump [] c = []
  config_dump (e ∷ es) c = dump_line e c ++ (10 ∷ config_dump es c)
