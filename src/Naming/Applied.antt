-- ===== src/Naming/Applied.antt =====
-- No rename of main/bt_name.c is lost, and its callback is never queued twice.
use vetera_bridge.Prelude.{
  ℕ, ◌+◌, ◌-◌, ◌≡◌, Bool, false, Option, List, [], ◌∷◌, arith, ◌==◌, if◌then◌else◌, length, take,
}
use vetera_bridge.Naming.{Naming, chosen, apply_from_addr, apply_cb, bt_name_set, bt_name_init}

-- A rename, the queued callback, or the report of the controller's address.
pub data Event : Type 0 where
  rename : Bool → List ℕ → Event
  callback ready : ℕ → ℕ → Event

-- The names with the callbacks that wait in BTstack's run loop.
abbrev pub Loop : Type 0
Loop = Naming × ℕ

unfoldable pub loop_step : Loop → Event → Loop
loop_step (s, n) (rename opened name) =
    let r = bt_name_set s opened name in (r.0, if r.1 then n + 1 else n)
loop_step (s, n) (callback b4 b5) = if n == 0 then (s, n) else (apply_cb s b4 b5, n - 1)
loop_step (s, n) (ready b4 b5) = (apply_from_addr s b4 b5, n)

unfoldable pub loop_run : Loop → List Event → Loop
loop_run l [] = l
loop_run l (e ∷ es) = loop_run (loop_step l e) es

pub record IsLoop (l : Loop) : Type 0 where
  pub one : l.1 ≡ (if l.0.pending then 1 else 0)
  pub shown :
      l.0.pending ≡ false
      → (length l.0.derived == 0) ≡ false
      → l.0.active ≡ take 31 (chosen l.0.custom l.0.derived)

loop_step-IsLoop : (l : Loop) (e : Event) → IsLoop l → IsLoop (loop_step l e)
unfolding loop_step bt_name_set apply_cb apply_from_addr
loop_step-IsLoop (s, n) (rename opened name) k = ground (arith, k)
loop_step-IsLoop (s, n) (callback b4 b5) k = ground (arith, k)
loop_step-IsLoop (s, n) (ready b4 b5) k = ground (arith, k)

loop_runs-IsLoop : (es : List Event) (l : Loop) → IsLoop l → IsLoop (loop_run l es)
unfolding loop_run
loop_runs-IsLoop [] l k = k
loop_runs-IsLoop (e ∷ es) l k = loop_runs-IsLoop es (loop_step l e) (loop_step-IsLoop l e k)

-- From boot on, however renames, callbacks and reports of the address interleave: one callback waits if a
-- rename is pending and none otherwise, so it is never queued twice; and once none is pending and
-- the address is known, the name in use is the custom name, or the derived one where there is none.
pub loop_run-IsLoop :
    (opened : Bool) (saved : Option (List ℕ)) (es : List Event)
    → IsLoop (loop_run (bt_name_init opened saved, 0) es)
unfolding bt_name_init
loop_run-IsLoop opened saved es = loop_runs-IsLoop es (bt_name_init opened saved, 0) (ground arith)
