-- ===== src/Getopts/Tests.antt =====
-- A run of src/modules/getopts/getopts.c on a small command line.
use kalisko.Base.{◌≡◌, some, List, [], ◌∷◌, codes, bytes_eq, arith}
use kalisko.Getopts.{get_opt, no_options}
use kalisko.Getopts.Given.{Setting, long_form, short_form, get_opt-command_line}

abbrev settings : List Setting
settings =
    long_form (codes "port") (codes "80")
    ∷ short_form (codes "v") (codes "2")
    ∷ long_form (codes "port") (codes "a=b")
    ∷ []

get_opt-command_line_example :
    (get_opt
      (codes "kalisko" ∷ codes "--port=80" ∷ codes "-v" ∷ codes "2" ∷ codes "--port=a=b" ∷ [])
      (codes "port")
      no_options).0
    ≡ some (codes "a=b")
unfolding bytes_eq
get_opt-command_line_example =
    get_opt-command_line (codes "kalisko") settings (codes "port") (omega arith) (
      (tt, (omega arith, omega arith)),
      ((omega arith, omega arith), ((tt, (omega arith, omega arith)), tt)),
    )
