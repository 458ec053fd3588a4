-- ===== src/Getopts/Given.antt =====
-- The options that a command line gives are found, with the value that it gives last.
use kalisko.Base.{
  ◌≡◌, ◌≢◌, refl, true, if◌then◌else◌, Option, none, some, List, [], ◌∷◌, ◌++◌, Bytes, bytes_eq,
  All, arith,
}
use kalisko.Base.Table.{Table, get, put, get-put}
use kalisko.Getopts.{
  long, short, split_value, classify, is_value, parse_argv, get_opt, no_options, ignored,
}

-- An option as a user gives it: `--name=value`, or `-name value`.
pub data Setting : Type 0 where
  long_form short_form : Bytes → Bytes → Setting

abbrev pub words : Setting → List Bytes → List Bytes
words (long_form name value) args = (b'-' ∷ b'-' ∷ (name ++ b'=' ∷ value)) ∷ args
words (short_form name value) args = (b'-' ∷ name) ∷ value ∷ args

abbrev pub command_line : List Setting → List Bytes
command_line [] = []
command_line (s ∷ ss) = words s (command_line ss)

-- No dash at the start.
abbrev pub Undashed : Bytes → Type 0
Undashed [] = Unit
Undashed (c ∷ cs) = c ≢ b'-'

abbrev pub Filled : Bytes → Type 0
Filled [] = ⊥
Filled (c ∷ cs) = Unit

-- A setting that can be given.
abbrev pub IsSetting : Setting → Type 0
IsSetting (long_form name value) = Filled name × (Undashed name × All (λ c. c ≢ b'=') name)
IsSetting (short_form name value) = Undashed name × Undashed value

-- The value that the settings give last to a name, or else the one before them.
abbrev pub last_value : Bytes → List Setting → Option Bytes → Option Bytes
last_value k [] v = v
last_value k (long_form name value ∷ ss) v =
    last_value k ss (if bytes_eq name k then some value else v)
last_value k (short_form name value ∷ ss) v =
    last_value k ss (if bytes_eq name k then some value else v)

split_value-append :
    (name value : Bytes)
    → All (λ c. c ≢ b'=') name
    → split_value (name ++ b'=' ∷ value) ≡ (name, value)
unfolding split_value
split_value-append [] value h = refl
split_value-append (c ∷ name) value h = ground (arith, split_value-append name value h.1)

classify-long :
    (name value : Bytes)
    → IsSetting (long_form name value)
    → classify (b'-' ∷ b'-' ∷ (name ++ b'=' ∷ value)) ≡ long name value
unfolding classify
classify-long [] value h = absurd h.0
classify-long (c ∷ name) value h = ground (arith, split_value-append (c ∷ name) value h.1.1)

classify-short : (name : Bytes) → Undashed name → classify (b'-' ∷ name) ≡ short name
unfolding classify
classify-short [] h = refl
classify-short (c ∷ name) h = ground arith

is_value-Undashed : (value : Bytes) → Undashed value → is_value value ≡ true
is_value-Undashed [] h = refl
is_value-Undashed (c ∷ cs) h = ground arith

argument_long :
    (arg name value : Bytes) (args : List Bytes) (opts : Table Bytes)
    → classify arg ≡ long name value
    → parse_argv (arg ∷ args) opts ≡ parse_argv args (put name value opts)
unfolding parse_argv
argument_long arg name value [] opts e = rw (e, parse_argv) refl
argument_long arg name value (b ∷ args) opts e = rw (e, parse_argv) refl

argument_ignored :
    (arg : Bytes) (args : List Bytes) (opts : Table Bytes)
    → classify arg ≡ ignored
    → parse_argv (arg ∷ args) opts ≡ parse_argv args opts
unfolding parse_argv
argument_ignored arg [] opts e = rw (e, parse_argv) refl
argument_ignored arg (b ∷ args) opts e = rw (e, parse_argv) refl

parse_argv-long :
    (name value : Bytes) (args : List Bytes) (opts : Table Bytes)
    → IsSetting (long_form name value)
    → parse_argv (words (long_form name value) args) opts ≡ parse_argv args (put name value opts)
parse_argv-long name value args opts h =
    argument_long _ name value args opts (classify-long name value h)

parse_argv-short :
    (name value : Bytes) (args : List Bytes) (opts : Table Bytes)
    → IsSetting (short_form name value)
    → parse_argv (words (short_form name value) args) opts ≡ parse_argv args (put name value opts)
unfolding parse_argv
parse_argv-short name value args opts h =
    rw (classify-short name h.0, is_value-Undashed value h.1, parse_argv) refl

parse_argv-get :
    (ss : List Setting) (k : Bytes) (opts : Table Bytes)
    → All IsSetting ss
    → get k (parse_argv (command_line ss) opts) ≡ last_value k ss (get k opts)
unfolding parse_argv
parse_argv-get [] k opts h = refl
parse_argv-get (long_form name value ∷ ss) k opts h =
    rw (parse_argv-long name value (command_line ss) opts h.0)
      (rw (← get-put name k value opts) (parse_argv-get ss k (put name value opts) h.1))
parse_argv-get (short_form name value ∷ ss) k opts h =
    rw (parse_argv-short name value (command_line ss) opts h.0)
      (rw (← get-put name k value opts) (parse_argv-get ss k (put name value opts) h.1))

classify-Undashed : (program : Bytes) → Undashed program → classify program ≡ ignored
unfolding classify
classify-Undashed [] h = refl
classify-Undashed (c ∷ program) h = ground arith

-- On a command line of a program name and of options in the forms --name=value and -name value,
-- getOpt gives to every name the value that the line gives to it last, and NULL where it gives
-- none. The names have no dash at the start; those of the long form are not empty and have no
-- equals sign; the values of the short form have no dash at the start, nor has the program name.
pub get_opt-command_line :
    (program : Bytes) (ss : List Setting) (k : Bytes)
    → Undashed program
    → All IsSetting ss
    → (get_opt (program ∷ command_line ss) k no_options).0 ≡ last_value k ss none
unfolding get_opt
get_opt-command_line program ss k p h =
    rw (argument_ignored program (command_line ss) [] (classify-Undashed program p))
      (parse_argv-get ss k [] h)
