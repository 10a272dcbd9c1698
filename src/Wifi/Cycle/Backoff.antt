-- ===== src/Wifi/Cycle/Backoff.antt =====
-- The events of main/wifi_multi.c: the delay that is kept for the next retry, and that the candidate
-- cycle stays in its bounds.
use native.Mathlib.Omega.{pow_step}
use vetera_bridge.Prelude.{
  ℕ, suc, ◌+◌, ◌*◌, ◌^◌, ◌≤◌, ◌<◌, min, ◌≡◌, ap, ap₂, ◌∙◌, ◌↔◌, inl, inr, Bool, true, false, not,
  ◌&&◌, List, [], ◌∷◌, arith, ltb, if◌then◌else◌, Bool-cases, length, length-take, take_of_le,
}
use vetera_bridge.Wifi.Saved.{Cred, list_remove}
use vetera_bridge.Wifi.Saved.Valid.{Change, remove, change}
use vetera_bridge.Wifi.Scan.{Seen}
use vetera_bridge.Wifi.Cycle.{
  AppState, wait_bt, no_wifi, wifi_scanning, bridge, Wifi, Act, disconnect, configure, Result,
  schedule_retry, cycle_failed, station_config, try_candidate, connect_begin, scan_done,
  attempt_failed, bridge_lost, lost_in, disconnected, got_ip, retry, clear_list, soft_reset,
}

-- What can happen to the manager, with what its calls find.
pub data Event : Type 0 where
  begin awake reset : Bool → Bool → Bool → Event
  scanned : List Seen → Bool → Bool → Event
  lost : Bool → Bool → Event
  ip : Bool → Event
  edit : Change → Event
  clear_all : Event
  show : AppState → Event

-- `wifi_list_remove` disconnects from the network that it takes off the list.
abbrev pub told_by : Change → Wifi → List Act
told_by (remove i _ _) w =
    if (list_remove w.saved i w.current w.connected).2 then disconnect ∷ [] else []
told_by _ w = []

unfoldable pub step : Wifi → Event → Result
step w (begin negotiating started created) = connect_begin w negotiating started created
step w (awake negotiating started created) = retry w negotiating started created
step w (reset negotiating started created) = soft_reset w negotiating started created
step w (scanned seen negotiating created) = scan_done w seen negotiating created
step w (lost negotiating created) = disconnected w negotiating created
step w (ip ppp) = got_ip w ppp
step w (edit c) = (record w { saved = change w.saved c }, told_by c w)
step w clear_all = clear_list w
step w (show app) = (record w { app = app }, [])

unfoldable pub run : Wifi → List Event → Wifi
run w [] = w
run w (e ∷ es) = run (step w e).0 es

-- The state at boot, with the list that was read from flash.
abbrev pub at_boot : List Cred → Wifi
at_boot l = record {
  saved = l;
  connected = false;
  ignore = false;
  retries = 0;
  delay = 1000;
  current = [];
  scanning = false;
  cands = [];
  index = 0;
  attempts = 0;
  retry_running = false;
  app = wait_bt;
}

pub record IsWifi (w : Wifi) : Type 0 where
  pub delay_is : w.delay ≡ min (1000 * 2 ^ w.retries) 30000
  pub in_cycle : 0 < length w.cands → w.index < length w.cands
  pub attempts_fit : w.attempts < 2
  pub one_at_a_time : w.scanning ≡ true → length w.cands ≡ 0

pow_suc : (n : ℕ) → 2 ^ (n + 1) ≡ 2 * 2 ^ n
pow_suc n = let one : n + 1 ≡ suc n = omega arith in ap (λ k. 2 ^ k) one ∙ pow_step 2 n

schedule_retry-IsWifi :
    (w : Wifi) (ms : ℕ) (created : Bool) → IsWifi w → IsWifi (schedule_retry w ms created).0
unfolding schedule_retry
schedule_retry-IsWifi w ms created k = ground (arith, k)

cycle_failed-IsWifi : (w : Wifi) (created : Bool) → IsWifi w → IsWifi (cycle_failed w created).0
unfolding cycle_failed schedule_retry
cycle_failed-IsWifi w created k = ground (arith, k, pow_suc w.retries)

try_candidate-IsWifi :
    (w : Wifi) (negotiating created : Bool)
    → IsWifi w
    → IsWifi (try_candidate w negotiating created).0
unfolding try_candidate schedule_retry
try_candidate-IsWifi w negotiating created k = ground (arith, k)

connect_begin-IsWifi :
    (w : Wifi) (negotiating started created : Bool)
    → IsWifi w
    → IsWifi (connect_begin w negotiating started created).0
unfolding connect_begin schedule_retry cycle_failed
connect_begin-IsWifi w negotiating started created k = ground (arith, k, pow_suc w.retries)

retry-IsWifi :
    (w : Wifi) (negotiating started created : Bool)
    → IsWifi w
    → IsWifi (retry w negotiating started created).0
unfolding retry
retry-IsWifi w negotiating started created k =
    elim (Bool-cases (ltb 0 (length w.saved) && not w.connected)) [
      | inl on ↦ rw on (
          connect_begin-IsWifi (record w { retry_running = false }) negotiating started created
            (ground (arith, k)))
      | inr idle ↦ rw idle (ground (arith, k))
    ]

soft_reset-IsWifi :
    (w : Wifi) (negotiating started created : Bool)
    → IsWifi w
    → IsWifi (soft_reset w negotiating started created).0
unfolding soft_reset
soft_reset-IsWifi w negotiating started created k = elim (Bool-cases (ltb 0 (length w.saved))) [
  | inl on ↦ rw on (
      connect_begin-IsWifi (record w { scanning = false; cands = [] }) negotiating started created
        (ground (arith, k)))
  | inr idle ↦ rw idle (ground (arith, k))
]

scan_done-IsWifi :
    (w : Wifi) (seen : List Seen) (negotiating created : Bool)
    → IsWifi w
    → IsWifi (scan_done w seen negotiating created).0
unfolding scan_done try_candidate schedule_retry cycle_failed
scan_done-IsWifi w seen negotiating created k = ground (arith, k, pow_suc w.retries)

attempt_failed-IsWifi :
    (w : Wifi) (negotiating created : Bool)
    → IsWifi w
    → IsWifi (attempt_failed w negotiating created).0
unfolding attempt_failed try_candidate schedule_retry cycle_failed
attempt_failed-IsWifi w negotiating created k = ground (arith, k, pow_suc w.retries)

bridge_lost-IsWifi : (w : Wifi) (created : Bool) → IsWifi w → IsWifi (bridge_lost w created).0
unfolding bridge_lost schedule_retry
bridge_lost-IsWifi w created k = ground (arith, k)

lost_in-IsWifi :
    (app : AppState) (w : Wifi) (negotiating created : Bool)
    → IsWifi w
    → IsWifi (lost_in app w negotiating created).0
unfolding lost_in
lost_in-IsWifi bridge w negotiating created k = bridge_lost-IsWifi w created k
lost_in-IsWifi no_wifi w negotiating created k = k
lost_in-IsWifi wifi_scanning w negotiating created k = k
lost_in-IsWifi _ w negotiating created k = attempt_failed-IsWifi w negotiating created k

disconnected-IsWifi :
    (w : Wifi) (negotiating created : Bool)
    → IsWifi w
    → IsWifi (disconnected w negotiating created).0
unfolding disconnected
disconnected-IsWifi w negotiating created k =
    let off : IsWifi (record w { connected = false; ignore = false }) = ground (arith, k) in
    elim (Bool-cases w.ignore) [
      | inl told ↦ rw told off
      | inr own ↦ rw own (
          lost_in-IsWifi w.app (record w { connected = false; ignore = false }) negotiating created
            off)
    ]

step-IsWifi : (w : Wifi) (e : Event) → IsWifi w → IsWifi (step w e).0
unfolding step got_ip clear_list
step-IsWifi w (begin negotiating started created) k =
    connect_begin-IsWifi w negotiating started created k
step-IsWifi w (awake negotiating started created) k = retry-IsWifi w negotiating started created k
step-IsWifi w (reset negotiating started created) k =
    soft_reset-IsWifi w negotiating started created k
step-IsWifi w (scanned seen negotiating created) k = scan_done-IsWifi w seen negotiating created k
step-IsWifi w (lost negotiating created) k = disconnected-IsWifi w negotiating created k
step-IsWifi w (ip ppp) k = ground (arith, k)
step-IsWifi w (edit c) k = ground (arith, k)
step-IsWifi w clear_all k = ground (arith, k)
step-IsWifi w (show app) k = ground (arith, k)

steps-IsWifi : (es : List Event) (w : Wifi) → IsWifi w → IsWifi (run w es)
unfolding run
steps-IsWifi [] w k = k
steps-IsWifi (e ∷ es) w k = steps-IsWifi es (step w e).0 (step-IsWifi w e k)

pub run-IsWifi : (l : List Cred) (es : List Event) → IsWifi (run (at_boot l) es)
run-IsWifi l es = steps-IsWifi es (at_boot l) (ground arith)

-- The driver is told the SSID and the password of a saved network exactly if they have at most 31
-- and 63 bytes: the last byte of an SSID of 32 bytes, and of a password of 64, is cut off.
pub station_config_iff :
    (c : Cred)
    → (station_config c ≡ configure c.ssid c.pass) ↔ ((length c.ssid ≤ 31) × (length c.pass ≤ 63))
station_config_iff c = (
  (λ e. (
    omega (arith, length-take 31 c.ssid, ap length (ap ssid_of e)),
    omega (arith, length-take 63 c.pass, ap length (ap pass_told e)),
  )),
  (λ h. ap₂ configure (take_of_le 31 c.ssid h.0) (take_of_le 63 c.pass h.1)),
)
  where
    ssid_of : Act → List ℕ
    ssid_of (configure s p) = s
    ssid_of _ = []

    pass_told : Act → List ℕ
    pass_told (configure s p) = p
    pass_told _ = []
