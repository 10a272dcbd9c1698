-- ===== src/DebugLog/Tests.antt =====
-- The switches of main/debug_log.c at concrete flags.
use vetera_bridge.Prelude.{◌≡◌, true, false, none, [], ◌∷◌, arith}
use vetera_bridge.DebugLog.{start, set_flags, callback, step, run}
use vetera_bridge.DebugLog.Applied.{set_reaches_dump}

-- Verbose and packets, with a bit that is not known.
set_reaches_dump_example :
    let p =
      step callback
        (step (set_flags true 13) (run (set_flags false 2 ∷ []) (start true none, 0))) in
    (p.0.dump ≡ record { packets = true; stack_log = false })
    × (p.1 ≡ 0)
    × ((start true p.0.saved).flags ≡ 5)
    × ((start true p.0.saved).dump ≡ record { packets = true; stack_log = false })
set_reaches_dump_example = set_reaches_dump (set_flags false 2 ∷ []) true none 13 (omega arith)
