-- ===== src/Wifi/Watchdog.antt =====
-- The heartbeat's check of WiFi in main/wifi_multi.c, and the recovery task that it starts.
pub mod Tenth
use vetera_bridge.Prelude.{ℕ, ◌+◌, Bool, true, false, not, leb, if◌then◌else◌, u32}
use vetera_bridge.Wifi.Cycle.{AppState, is_bridge_no_wifi}

-- `wifi_stuck_count` and `wifi_recovery_running`
pub record Guard : Type 0 where
  pub stuck : ℕ  -- uint32
  pub recovering : Bool

-- `wifi_watchdog_check`, with whether it starts the recovery; a task that cannot be created reboots
-- the bridge.
unfoldable pub wifi_watchdog_check : AppState → Guard → Guard × Bool
wifi_watchdog_check app g =
    if is_bridge_no_wifi app
    then if leb 10 (u32 (g.stuck + 1))
      then (record { stuck = 0; recovering = true }, not g.recovering)
      else (record g { stuck = u32 (g.stuck + 1) }, false)
    else (record g { stuck = 0 }, false)

-- The end of `wifi_recovery_task`.
abbrev pub recovery_done : Guard → Guard
recovery_done g = record g { recovering = false }
