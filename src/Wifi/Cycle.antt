-- ===== src/Wifi/Cycle.antt =====
-- The connect cycle of main/wifi_multi.c: its variables and handlers. A handler returns the new
-- state and the calls that it makes, in order. `cand_count` is the length of the candidate list, so
-- a count that is set to 0 empties it. Whether a phone is negotiating and whether a task could be
-- created come with the event.
pub mod Backoff
pub mod Honest
pub mod Going
pub mod Waits
use vetera_bridge.Prelude.{
  ℕ, ◌+◌, ◌-◌, ◌*◌, Bool, true, false, not, ◌&&◌, ◌||◌, List, [], ◌∷◌, ltb, ◌==◌, if◌then◌else◌,
  length, get_or, take, u32,
}
use vetera_bridge.Wifi.Saved.{Cred}
use vetera_bridge.Wifi.Scan.{Seen, Candidate, scan_candidates}

-- `app_state_t`
pub data AppState : Type 0 where
  wait_bt no_wifi wifi_scanning wifi_connecting wifi_failed bridge bridge_no_wifi : AppState

abbrev pub is_bridge : AppState → Bool
is_bridge bridge = true
is_bridge _ = false

abbrev pub is_bridge_no_wifi : AppState → Bool
is_bridge_no_wifi bridge_no_wifi = true
is_bridge_no_wifi _ = false

abbrev pub wifi_max_retries : ℕ
wifi_max_retries = 7

abbrev pub retry_base_ms : ℕ
retry_base_ms = 1000

abbrev pub retry_max_ms : ℕ
retry_max_ms = 30000

abbrev pub cand_max_attempts : ℕ
cand_max_attempts = 2

abbrev pub recheck_ms : ℕ
recheck_ms = 3000

pub record Wifi : Type 0 where
  pub saved : List Cred
  pub connected : Bool
  pub ignore : Bool  -- `wifi_ignore_disconnect`
  pub retries : ℕ
  pub delay : ℕ  -- `wifi_retry_delay_ms`, uint32
  pub current : List ℕ  -- `wifi_cur_ssid`
  pub scanning : Bool
  pub cands : List Candidate
  pub index : ℕ
  pub attempts : ℕ
  pub retry_running : Bool
  pub app : AppState

-- What is told to the driver: an SSID and a password, as the configuration holds them.
pub data Act : Type 0 where
  start_scan connect disconnect update_nat : Act
  configure : List ℕ → List ℕ → Act
  retry_after : ℕ → Act

abbrev pub Result : Type 0
Result = Wifi × List Act

-- `wifi_schedule_retry`; `created` says whether the task could be created.
unfoldable pub schedule_retry : Wifi → ℕ → Bool → Result
schedule_retry w ms created =
    if w.retry_running
    then (w, [])
    else if created
    then (record w { retry_running = true }, retry_after ms ∷ [])
    else (w, [])

-- `wifi_cycle_failed`
unfoldable pub cycle_failed : Wifi → Bool → Result
cycle_failed w created =
    let counted = record w {
      retries = w.retries + 1;
      delay = if ltb retry_max_ms (u32 (w.delay * 2)) then retry_max_ms else u32 (w.delay * 2);
    } in
    if is_bridge_no_wifi w.app || ltb (w.retries + 1) wifi_max_retries
    then schedule_retry counted w.delay created
    else (record counted { app = wifi_failed }, [])

-- `strncpy` of at most `n` bytes into a zeroed buffer.
abbrev pub strncpy : List ℕ → ℕ → List ℕ
strncpy s n = take n s

abbrev pub no_candidate : Candidate
no_candidate = record { cred = record { ssid = []; pass = [] }; rssi = 0 }

-- What `wifi_try_candidate` writes to the driver's configuration: its SSID has 32 bytes, its
-- password 64.
abbrev pub station_config : Cred → Act
station_config c = configure (strncpy c.ssid (32 - 1)) (strncpy c.pass (64 - 1))

-- `wifi_try_candidate`
unfoldable pub try_candidate : Wifi → Bool → Bool → Result
try_candidate w negotiating created =
    let c = get_or w.cands w.index no_candidate in
    if negotiating then schedule_retry (record w { cands = [] }) recheck_ms created else (
      record w {
        current = c.cred.ssid;
        app = if is_bridge_no_wifi w.app then w.app else wifi_connecting;
      },
      station_config c.cred ∷ connect ∷ [],
    )

-- `wifi_connect_begin`; `started` says whether the driver started the scan.
unfoldable pub connect_begin : Wifi → Bool → Bool → Bool → Result
connect_begin w negotiating started created =
    let shown = record w { app = if is_bridge_no_wifi w.app then w.app else wifi_scanning } in
    let failed = cycle_failed shown created in
    if length w.saved == 0
    then (record w { app = no_wifi }, [])
    else if w.connected || w.scanning || ltb 0 (length w.cands)
    then (w, [])
    else if negotiating
    then schedule_retry w recheck_ms created
    else if started
    then (record shown { scanning = true }, start_scan ∷ [])
    else (failed.0, start_scan ∷ failed.1)

-- `handle_scan_done`, with what the driver saw (at most 24 access points).
unfoldable pub scan_done : Wifi → List Seen → Bool → Bool → Result
scan_done w seen negotiating created =
    let cs = scan_candidates w.saved (take 24 seen) in
    let found = record w { scanning = false; cands = cs } in
    let failed = cycle_failed found created in
    let tried = try_candidate (record found { index = 0; attempts = 0 }) negotiating created in
    if w.scanning then (if length cs == 0 then failed else tried) else (w, [])

-- A failed attempt within a candidate cycle, or without one.
unfoldable pub attempt_failed : Wifi → Bool → Bool → Result
attempt_failed w negotiating created =
    let next = record w { attempts = 0; index = w.index + 1 } in
    let tried = try_candidate next negotiating created in
    let failed = cycle_failed w created in
    let exhausted = cycle_failed (record next { cands = [] }) created in
    if length w.cands == 0
    then failed
    else if negotiating
    then schedule_retry (record w { cands = [] }) recheck_ms created
    else if ltb (w.attempts + 1) cand_max_attempts
    then (record w { attempts = w.attempts + 1 }, connect ∷ [])
    else if ltb (w.index + 1) (length w.cands)
    then tried
    else exhausted

-- The loss of WiFi while the bridge is up.
unfoldable pub bridge_lost : Wifi → Bool → Result
bridge_lost w created =
    if length w.saved == 0
    then (record w { app = no_wifi }, [])
    else schedule_retry
        (record w { app = bridge_no_wifi; retries = 0; delay = retry_base_ms; cands = [] })
        retry_base_ms created

-- WIFI_EVENT_STA_DISCONNECTED, by the application's state.
unfoldable pub lost_in : AppState → Wifi → Bool → Bool → Result
lost_in wifi_connecting w negotiating created = attempt_failed w negotiating created
lost_in bridge_no_wifi w negotiating created = attempt_failed w negotiating created
lost_in wait_bt w negotiating created = attempt_failed w negotiating created
lost_in wifi_failed w negotiating created = attempt_failed w negotiating created
lost_in bridge w negotiating created = bridge_lost w created
lost_in no_wifi w negotiating created = (w, [])
lost_in wifi_scanning w negotiating created = (w, [])

unfoldable pub disconnected : Wifi → Bool → Bool → Result
disconnected w negotiating created =
    let off = record w { connected = false; ignore = false } in
    let lost = lost_in w.app off negotiating created in
    if w.ignore then (off, update_nat ∷ []) else (lost.0, update_nat ∷ lost.1)

-- IP_EVENT_STA_GOT_IP; `ppp` says whether the phone's PPP is up.
unfoldable pub got_ip : Wifi → Bool → Result
got_ip w ppp = (
  record w {
    connected = true;
    retries = 0;
    delay = retry_base_ms;
    cands = [];
    app = if ppp then bridge else wait_bt;
  },
  update_nat ∷ [],
)

-- The end of `wifi_retry_task`, after its delay.
unfoldable pub retry : Wifi → Bool → Bool → Bool → Result
retry w negotiating started created =
    let woken = record w { retry_running = false } in
    if ltb 0 (length w.saved) && not w.connected
    then connect_begin woken negotiating started created
    else (woken, [])

-- `wifi_list_clear`
unfoldable pub clear_list : Wifi → Result
clear_list w =
    (record w { saved = []; current = []; ignore = true; app = no_wifi }, disconnect ∷ [])

-- `wifi_soft_reset`, which drops the cycle in hand.
unfoldable pub soft_reset : Wifi → Bool → Bool → Bool → Result
soft_reset w negotiating started created =
    let idle = record w { scanning = false; cands = [] } in
    let begun = connect_begin idle negotiating started created in
    if ltb 0 (length w.saved) then (begun.0, disconnect ∷ begun.1) else (idle, disconnect ∷ [])
