-- ===== src/Wifi/Watchdog/Tenth.antt =====
-- When the check of main/wifi_multi.c starts a recovery.
use vetera_bridge.Prelude.{
  ℕ, ◌+◌, ◌%◌, ◌≡◌, refl, true, false, not, ◌&&◌, List, [], ◌∷◌, arith, ◌==◌, if◌then◌else◌,
}
use vetera_bridge.Wifi.Cycle.{AppState, is_bridge_no_wifi}
use vetera_bridge.Wifi.Watchdog.{Guard, wifi_watchdog_check, recovery_done}

-- A heartbeat, with the application's state, or the end of a recovery.
pub data Beat : Type 0 where
  beat : AppState → Beat
  done : Beat

unfoldable pub guard_step : Guard → Beat → Guard
guard_step g (beat app) = (wifi_watchdog_check app g).0
guard_step g done = recovery_done g

unfoldable pub guard_run : Guard → List Beat → Guard
guard_run g [] = g
guard_run g (b ∷ bs) = guard_run (guard_step g b) bs

-- How many heartbeats in a row found the bridge up without WiFi, the last ones of a history.
unfoldable pub streak : ℕ → List Beat → ℕ
streak n [] = n
streak n (beat app ∷ bs) = streak (if is_bridge_no_wifi app then n + 1 else 0) bs
streak n (done ∷ bs) = streak n bs

guard_run-streak :
    (bs : List Beat) (g : Guard) (n : ℕ)
    → g.stuck ≡ n % 10
    → (guard_run g bs).stuck ≡ streak n bs % 10
unfolding guard_run streak guard_step wifi_watchdog_check
guard_run-streak [] g n h = h
guard_run-streak (beat app ∷ bs) g n h =
    guard_run-streak bs (wifi_watchdog_check app g).0 (if is_bridge_no_wifi app then n + 1 else 0)
      (ground (arith, h))
guard_run-streak (done ∷ bs) g n h = guard_run-streak bs (recovery_done g) n h

-- After any heartbeats since boot, the next one starts a recovery exactly if it finds the bridge up
-- without WiFi, the number of heartbeats in a row that found it so, itself included, is a multiple
-- of ten, and no recovery is running; a recovery is then running.
pub watchdog_starts :
    (bs : List Beat) (app : AppState)
    → let g = guard_run (record { stuck = 0; recovering = false }) bs in
      let r = wifi_watchdog_check app g in
      (r.1 ≡ (is_bridge_no_wifi app && ((streak 0 bs + 1) % 10 == 0) && not g.recovering))
      × (r.1 ≡ true → r.0.recovering ≡ true)
unfolding wifi_watchdog_check
watchdog_starts bs app =
    let same = guard_run-streak bs (record { stuck = 0; recovering = false }) 0 refl in
    ground (arith, same)
