-- ===== src/Getopts.antt =====
-- src/modules/getopts/getopts.c: the options of the command line. The arguments come from the core
-- (`getArgv`) and are an argument here; behind the last one stands `NULL`.
pub mod Given
mod Tests
use kalisko.Base.{
  ℕ, Bool, true, false, ◌==◌, if◌then◌else◌, Option, none, some, List, [], ◌∷◌, Bytes,
}
use kalisko.Base.Table.{Table, get, put}

-- What `parseArgv` takes an argument for: `--`, one that is skipped, a long option with its value,
-- or a short one.
pub data Argument : Type 0 where
  last ignored : Argument
  long : Bytes → Bytes → Argument
  short : Bytes → Argument

-- The name and the value around the first `=`.
unfoldable pub split_value : Bytes → Bytes × Bytes
split_value [] = ([], [])
split_value (c ∷ cs) =
    let rest = split_value cs in if c == b'=' then ([], cs) else (c ∷ rest.0, rest.1)

abbrev long_option : Bytes → Argument
long_option [] = last
long_option (c ∷ cs) =
    if c == b'-' then ignored else long (split_value (c ∷ cs)).0 (split_value (c ∷ cs)).1

abbrev dashed : Bytes → Argument
dashed [] = short []
dashed (c ∷ cs) = if c == b'-' then long_option cs else short (c ∷ cs)

unfoldable pub classify : Bytes → Argument
unfolding split_value
classify [] = ignored
classify (c ∷ cs) = if c == b'-' then dashed cs else ignored

-- `argv[i + 1][0] != '-'`
abbrev pub is_value : Bytes → Bool
is_value [] = true
is_value (c ∷ cs) = if c == b'-' then false else true

abbrev put_last : Argument → Table Bytes → Table Bytes
put_last last opts = opts
put_last ignored opts = opts
put_last (long key value) opts = put key value opts
put_last (short key) opts = put key [] opts

-- The loop of `parseArgv`.
unfoldable pub parse_argv : List Bytes → Table Bytes → Table Bytes
unfolding classify put
parse_argv [] opts = opts
parse_argv (arg ∷ []) opts = put_last (classify arg) opts
parse_argv (arg ∷ (elem' ∷ args)) opts = elim (classify arg) [
  | last ↦ opts
  | ignored ↦ parse_argv (elem' ∷ args) opts
  | long key value ↦ parse_argv (elem' ∷ args) (put key value opts)
  | short key ↦
      if is_value elem'
      then parse_argv args (put key elem' opts)
      else parse_argv (elem' ∷ args) (put key [] opts)
]

-- `opts` and `parsed`
pub record Options : Type 0 where
  pub opts : Table Bytes
  pub parsed : Bool

-- The options of `MODULE_INIT`.
abbrev pub no_options : Options
no_options = record { opts = []; parsed = false }

abbrev parse_once : List Bytes → Options → Options
parse_once argv state =
    if state.parsed then state else record { opts = parse_argv argv state.opts; parsed = true }

-- `getOpt`
unfoldable pub get_opt : List Bytes → Bytes → Options → Option Bytes × Options
unfolding parse_argv get
get_opt argv opt state = let after = parse_once argv state in (get opt after.opts, after)

abbrev nonempty : Option Bytes → Option Bytes → Option Bytes
nonempty (some (c ∷ cs)) rest = some (c ∷ cs)
nonempty _ rest = rest

-- `getOptValue`, with its list of options
unfoldable pub get_opt_value : List Bytes → List Bytes → Options → Option Bytes × Options
unfolding get_opt
get_opt_value argv [] state = (none, state)
get_opt_value argv (opt ∷ opts) state =
    let (value, after) = get_opt argv opt state in
    let (rest, final) = get_opt_value argv opts after in (nonempty value rest, final)

-- `setOptsParsed`
unfoldable pub set_opts_parsed : Bool → Options → Options
set_opts_parsed v state = record state { parsed = v }
