-- ===== src/Naming/Tests.antt =====
-- The theorem on main/bt_name.c at concrete renames.
use vetera_bridge.Prelude.{◌≡◌, refl, true, none, List, [], ◌∷◌, codes}
use vetera_bridge.Naming.{
  decimal, apply_from_addr, apply_cb, skip_spaces, copy_printable, trim_spaces, clean_name,
  bt_name_set, bt_name_init,
}
use vetera_bridge.Naming.Applied.{
  Event, rename, callback, ready, loop_step, loop_run, IsLoop, loop_run-IsLoop,
}

-- Two renames before the callback runs.
abbrev renames : List Event
renames = ready 1 2 ∷ rename true (codes " car ") ∷ rename true (codes "desk") ∷ callback 1 2 ∷ []

last_one : (loop_run (bt_name_init true none, 0) renames).0.active ≡ codes "desk"
unfolding loop_run loop_step bt_name_set apply_cb apply_from_addr bt_name_init clean_name
    trim_spaces copy_printable skip_spaces decimal
last_one = refl

loop_run-IsLoop_example : IsLoop (loop_run (bt_name_init true none, 0) renames)
loop_run-IsLoop_example = loop_run-IsLoop true none renames
