-- ===== src/Gateway.antt =====
-- The application state of main/gateway.c, over the WiFi manager that shares it: the hooks of RFCOMM
-- and PPP, the deferred start of WiFi, the visibility of the bridge, and the heartbeat.
pub mod Shown
pub mod Kicks
mod Tests
use vetera_bridge.Prelude.{
  ℕ, ◌+◌, ◌-◌, Bool, true, false, not, ◌&&◌, ◌||◌, List, [], ◌∷◌, ltb, ◌==◌, if◌then◌else◌, length,
}
use vetera_bridge.Wifi.Cycle.{
  AppState, wait_bt, no_wifi, bridge, is_bridge, is_bridge_no_wifi, Wifi, connect_begin,
}
use vetera_bridge.Wifi.Cycle.Backoff
use vetera_bridge.Wifi.Saved.{Cred}
use vetera_bridge.Wifi.Watchdog.{Guard, wifi_watchdog_check}
use vetera_bridge.Dns.Watchdog.{Monitor, watchdog_check}

abbrev pub no_handle : ℕ
no_handle = 0xffff

-- The int8_t -100, as a byte.
abbrev pub no_rssi : ℕ
no_rssi = 156

abbrev pub heap_reboot_threshold : ℕ
heap_reboot_threshold = 8192

-- `wifi` holds `app_state` and the list; `reopen` says whether `bt_reopen_timer` runs, `kicks` how
-- many tasks of the deferred start have not ended.
pub record Gateway : Type 0 where
  pub wifi : Wifi
  pub bt_connected : Bool
  pub bt_handle : ℕ
  pub bt_rssi : ℕ
  pub visible : Bool
  pub reopen : Bool
  pub kick_running : Bool
  pub kicks : ℕ

-- `set_app_state`
abbrev pub set_app_state : AppState → Gateway → Gateway
set_app_state st g = record g { wifi = record g.wifi { app = st } }

unfoldable pub on_rfcomm_opened : ℕ → Gateway → Gateway
on_rfcomm_opened handle g = record g { bt_connected = true; bt_handle = handle; visible = false }

unfoldable pub on_rfcomm_closed : Gateway → Gateway
on_rfcomm_closed g = record (set_app_state wait_bt g) {
  bt_connected = false;
  bt_handle = no_handle;
  bt_rssi = no_rssi;
  reopen = true;
}

-- `bt_reopen_timer_handler`
unfoldable pub reopen_due : Gateway → Gateway
reopen_due g = record g { reopen = false; visible = if g.bt_connected then g.visible else true }

-- `gw_wifi_kick_deferred`; a task that cannot be created reboots the bridge.
unfoldable pub wifi_kick_deferred : Gateway → Gateway
wifi_kick_deferred g =
    if g.kick_running then g else record g { kick_running = true; kicks = g.kicks + 1 }

-- The end of `wifi_kick_task`; `ppp` says whether PPP is up, and the rest is for the start of the
-- cycle.
unfoldable pub kick_ends : Bool → Bool → Bool → Bool → Gateway → Gateway
kick_ends ppp negotiating begun created g =
    let woken = record g { kick_running = false; kicks = g.kicks - 1 } in
    if ppp && not g.wifi.connected && ltb 0 (length g.wifi.saved)
    then record woken { wifi = (connect_begin g.wifi negotiating begun created).0 }
    else woken

unfoldable pub on_ppp_up : Gateway → Gateway
on_ppp_up g =
    if g.wifi.connected
    then set_app_state bridge g
    else if length g.wifi.saved == 0
    then set_app_state no_wifi g
    else wifi_kick_deferred g

unfoldable pub on_ppp_down : Gateway → Gateway
on_ppp_down g =
    if is_bridge g.wifi.app || is_bridge_no_wifi g.wifi.app then set_app_state wait_bt g else g

-- `GAP_EVENT_RSSI_MEASUREMENT`
unfoldable pub on_rssi : ℕ → ℕ → Gateway → Gateway
on_rssi handle rssi g = if handle == g.bt_handle then record g { bt_rssi = rssi } else g

-- One pass of `watchdog_task`, with the clock before and after the delay in the check of the DNS task;
-- the Booleans say whether the recovery of WiFi starts, whether the DNS task starts anew, and whether
-- the bridge reboots.
unfoldable pub heartbeat :
    Gateway → Guard → Monitor → ℕ → ℕ → ℕ → (Guard × Monitor) × Bool × Bool × Bool
heartbeat g guard dns now later free_heap =
    let (guard', recovers) = wifi_watchdog_check g.wifi.app guard in
    let (dns', restarts) = watchdog_check dns now later in
    ((guard', dns'), recovers, restarts, ltb free_heap heap_reboot_threshold)

-- What happens to the gateway. `wifi_event` is anything that happens to the manager, a clearing of the
-- list too; `web_kick` is the web page that adds a network.
pub data Event : Type 0 where
  rfcomm_opened : ℕ → Event
  rfcomm_closed ppp_up ppp_down reopens web_kick : Event
  kick_over : Bool → Bool → Bool → Bool → Event
  rssi : ℕ → ℕ → Event
  wifi_event : Backoff.Event → Event

unfoldable pub step : Event → Gateway → Gateway
step (rfcomm_opened handle) g = on_rfcomm_opened handle g
step rfcomm_closed g = on_rfcomm_closed g
step ppp_up g = on_ppp_up g
step ppp_down g = on_ppp_down g
step reopens g = reopen_due g
step web_kick g = wifi_kick_deferred g
step (kick_over ppp negotiating begun created) g = kick_ends ppp negotiating begun created g
step (rssi handle r) g = on_rssi handle r g
step (wifi_event e) g = record g { wifi = (Backoff.step g.wifi e).0 }

unfoldable pub run : List Event → Gateway → Gateway
run [] g = g
run (e ∷ es) g = run es (step e g)

-- After `bt_setup`, with the list that was read from flash.
unfoldable pub at_boot : List Cred → Gateway
at_boot l = record {
  wifi = Backoff.at_boot l;
  bt_connected = false;
  bt_handle = no_handle;
  bt_rssi = no_rssi;
  visible = true;
  reopen = false;
  kick_running = false;
  kicks = 0;
}
