-- ===== src/PropertyTable/Values.antt =====
-- A value that is set is got back, and the other values stay.
use kalisko.Base.{ℕ, ◌≡◌, ◌==◌, ==_iff, ◌&&◌, if◌then◌else◌, Bytes, bytes_eq, arith}
use kalisko.Base.Table.{put, drop, get-put, get-drop}
use kalisko.Base.Pointers.{get_subject-put_subject, get_subject-drop_subject, get_subject}
use kalisko.PropertyTable.{
  Properties, get_property_table_value, set_property_table_value, free_property_table, table_in,
}

-- After setPropertyTableValue the key of the subject has the value, NULL too, and every other key
-- and every other subject has the value that it had.
pub get_property_table_value-set_property_table_value :
    (s t : ℕ) (key other : Bytes) (value : ℕ) (subjects : Properties)
    → get_property_table_value t other (set_property_table_value s key value subjects)
      ≡ (if s == t && bytes_eq key other then value else get_property_table_value t other subjects)
unfolding get_property_table_value set_property_table_value
get_property_table_value-set_property_table_value s t key other value subjects =
    let table = table_in (get_subject s subjects) in
    ground (
      arith,
      get_subject-put_subject s t (drop key table) subjects,
      get_subject-put_subject s t (put key value table) subjects,
      get-put key other value table,
      get-drop key other table,
      ==_iff s t,
    )

-- After freePropertyTable the subject has no values, and every other subject has those that it
-- had.
pub get_property_table_value-free_property_table :
    (s t : ℕ) (key : Bytes) (subjects : Properties)
    → get_property_table_value t key (free_property_table s subjects)
      ≡ (if s == t then 0 else get_property_table_value t key subjects)
unfolding get_property_table_value free_property_table
get_property_table_value-free_property_table s t key subjects =
    ground (arith, get_subject-drop_subject s t subjects)
