-- ===== src/Wifi/Cycle/Honest.antt =====
-- The state that main/wifi_multi.c shows: the bridge is said to be active only while WiFi is connected.
use vetera_bridge.Prelude.{◌≡◌, refl, Bool, true, false, arith}
use vetera_bridge.Wifi.Cycle.{
  is_bridge, Wifi, schedule_retry, cycle_failed, try_candidate, connect_begin, scan_done,
  attempt_failed, bridge_lost, lost_in, disconnected, got_ip, retry, soft_reset,
}
use vetera_bridge.Wifi.Cycle.Backoff.{
  Event, begin, awake, reset, scanned, lost, ip, edit, clear_all, show, step,
}

-- The state says that the bridge is active only while WiFi is connected, and no loss is ignored.
pub record IsHonest (w : Wifi) : Type 0 where
  pub bridging : is_bridge w.app ≡ true → w.connected ≡ true
  pub heeded : w.ignore ≡ false

-- The manager's own events, but the clearing of its list.
abbrev pub keeps_list : Event → Bool
keeps_list clear_all = false
keeps_list (show app) = false
keeps_list _ = true

pub wifi-IsHonest :
    (e : Event) (w : Wifi) → keeps_list e ≡ true → IsHonest w → IsHonest (step w e).0
unfolding step connect_begin schedule_retry cycle_failed try_candidate scan_done attempt_failed
    bridge_lost lost_in disconnected got_ip retry soft_reset
wifi-IsHonest (begin negotiating started created) w t v = ground (arith, v)
wifi-IsHonest (awake negotiating started created) w t v = ground (arith, v)
wifi-IsHonest (reset negotiating started created) w t v = ground (arith, v)
wifi-IsHonest (scanned seen negotiating created) w t v = ground (arith, v)
wifi-IsHonest (lost negotiating created) w t v = ground (arith, v)
wifi-IsHonest (ip ppp) w t v = ground (arith, v)
wifi-IsHonest (edit c) w t v = record { bridging = v.bridging; heeded = v.heeded }
wifi-IsHonest clear_all w t v = ground (arith, t)
wifi-IsHonest (show app) w t v = ground (arith, t)

pub begin-IsHonest :
    (negotiating begun created : Bool) (w : Wifi)
    → IsHonest w
    → IsHonest (connect_begin w negotiating begun created).0
unfolding step
begin-IsHonest negotiating begun created w v =
    wifi-IsHonest (begin negotiating begun created) w refl v
