-- ===== src/PropertyTable.antt =====
-- src/modules/property_table/property_table.c: values for strings, for each subject. Subjects and
-- values are pointers, which are numbers here; 0 is `NULL`.
mod Values
use kalisko.Base.{ℕ, ◌==◌, if◌then◌else◌, Option, none, some, List, [], Bytes}
use kalisko.Base.Table.{Table, get, put, drop}
use kalisko.Base.Pointers.{get_subject, put_subject, drop_subject}

-- `subjects`
abbrev pub Properties : Type 0
Properties = List (ℕ × Table ℕ)

abbrev value_in : Option ℕ → ℕ
value_in none = 0
value_in (some value) = value

abbrev value_of : Bytes → Option (Table ℕ) → ℕ
value_of key none = 0
value_of key (some table) = value_in (get key table)

unfoldable pub get_property_table_value : ℕ → Bytes → Properties → ℕ
unfolding get_subject get
get_property_table_value subject key subjects = value_of key (get_subject subject subjects)

abbrev table_in : Option (Table ℕ) → Table ℕ
table_in none = []
table_in (some table) = table

unfoldable pub set_property_table_value : ℕ → Bytes → ℕ → Properties → Properties
unfolding get_subject put_subject put drop
set_property_table_value subject key value subjects =
    let table = table_in (get_subject subject subjects) in
    if value == 0
    then put_subject subject (drop key table) subjects
    else put_subject subject (put key value table) subjects

unfoldable pub free_property_table : ℕ → Properties → Properties
unfolding drop_subject
free_property_table subject subjects = drop_subject subject subjects
