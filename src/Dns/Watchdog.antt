-- ===== src/Dns/Watchdog.antt =====
-- The watchdog of the DNS task in main/dns_fwd.c: `dns_fwd_watchdog_check`, `dns_fwd_start`, and
-- what the task itself writes of the shared variables.
pub mod Restart
use vetera_bridge.Prelude.{
  ℕ, ◌+◌, Bool, true, false, ◌&&◌, List, [], ◌∷◌, ltb, leb, if◌then◌else◌, u32, sub32,
}
use vetera_bridge.Dns.Cache.{Cache, cache_clear}

abbrev pub dns_watchdog_ms : ℕ
dns_watchdog_ms = 15000

abbrev pub dns_watchdog_ticks : ℕ
dns_watchdog_ticks = 2

-- `dns_task_handle` (whether it is set), `dns_last_alive_ms`, `dns_restart_flag`,
-- `dns_stuck_count` and the cache.
pub record Monitor : Type 0 where
  pub task : Bool
  pub last_alive : ℕ  -- uint32
  pub restart : Bool
  pub stuck : ℕ  -- uint32
  pub cache : Cache

-- `dns_fwd_start`: a task that cannot be created reboots the bridge (`gw_safe_task_create`).
abbrev pub fwd_start : Monitor → ℕ → Monitor
fwd_start m now = record m { last_alive = now; task = true }

-- The task is there and has made no pass for longer than the limit.
abbrev pub is_hung : Monitor → ℕ → Bool
is_hung m now = m.task && ltb dns_watchdog_ms (sub32 now m.last_alive)

-- `dns_fwd_watchdog_check` at the clock `now`, where the clock reads `later` after the delay; the
-- Boolean says whether the task was started anew.
unfoldable pub watchdog_check : Monitor → ℕ → ℕ → Monitor × Bool
watchdog_check m now later =
    let count = u32 (m.stuck + 1) in
    let signalled = record m { restart = true; task = false; stuck = count } in
    let cleared = record signalled { cache = cache_clear; last_alive = now } in
    if is_hung m now
    then if leb dns_watchdog_ticks count
      then (record (fwd_start cleared later) { stuck = 0 }, true)
      else (record m { stuck = count }, false)
    else (record m { stuck = 0 }, false)

-- What happens to the shared variables: a heartbeat; and of a task, its start, the head of a pass of
-- its loop, and its end.
pub data Event : Type 0 where
  beat : ℕ → ℕ → Event
  begin leave : Event
  pass : ℕ → Event

unfoldable pub step : Monitor → Event → Monitor × Bool
step m (beat now later) = watchdog_check m now later
step m begin = (record m { restart = false }, false)
step m leave = (record m { task = false }, false)
step m (pass now) = (if m.restart then m else record m { last_alive = now }, false)

unfoldable pub run : Monitor → List Event → Monitor
run m [] = m
run m (e ∷ es) = run (step m e).0 es

-- After `dns_fwd_start` at boot.
abbrev pub at_boot : ℕ → Monitor
at_boot now = record {
  task = true;
  last_alive = now;
  restart = false;
  stuck = 0;
  cache = cache_clear;
}
