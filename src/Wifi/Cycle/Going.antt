-- ===== src/Wifi/Cycle/Going.antt =====
-- The connect cycle of main/wifi_multi.c does not stall: while it is under way, something is to come.
use vetera_bridge.Prelude.{
  ◌<◌, ◌≡◌, Bool, true, false, not, ◌||◌, List, [], ◌∷◌, arith, ltb, length,
}
use vetera_bridge.Wifi.Cycle.{
  AppState, wifi_scanning, wifi_connecting, bridge_no_wifi, Wifi, schedule_retry, cycle_failed,
  try_candidate, connect_begin, scan_done, attempt_failed, bridge_lost, lost_in, disconnected,
  got_ip, retry, soft_reset,
}
use vetera_bridge.Wifi.Saved.{Cred}
use vetera_bridge.Wifi.Cycle.Backoff.{
  Event, begin, awake, reset, scanned, lost, ip, edit, clear_all, show, step, run, at_boot,
}

-- The states in which the bridge looks for a network.
abbrev pub is_going : AppState → Bool
is_going wifi_scanning = true
is_going wifi_connecting = true
is_going bridge_no_wifi = true
is_going _ = false

-- A scan is under way, a candidate is tried, or a retry waits.
abbrev pub is_pending : Wifi → Bool
is_pending w = w.scanning || ltb 0 (length w.cands) || w.retry_running

pub record IsGoing (w : Wifi) : Type 0 where
  pub has_saved : 0 < length w.saved
  pub heeded : w.ignore ≡ false
  pub pending : is_going w.app ≡ true → is_pending w ≡ true
  pub settled : w.connected ≡ true → is_going w.app || w.scanning ≡ false

-- Retries can be scheduled, the list stays, and nobody else says that the bridge looks for a network.
-- An address comes from a connection in progress, while which the driver refuses a scan.
abbrev pub is_plain : Wifi → Event → Bool
is_plain w (begin negotiating started created) = created
is_plain w (awake negotiating started created) = created
is_plain w (reset negotiating started created) = created
is_plain w (scanned seen negotiating created) = created
is_plain w (lost negotiating created) = created
is_plain w (ip ppp) = not w.scanning
is_plain w (edit c) = false
is_plain w clear_all = false
is_plain w (show app) = not (is_going app)

abbrev pub IsPlain : Wifi → List Event → Type 0
IsPlain w [] = Unit
IsPlain w (e ∷ es) = (is_plain w e ≡ true) × IsPlain (step w e).0 es

step-IsGoing : (e : Event) (w : Wifi) → is_plain w e ≡ true → IsGoing w → IsGoing (step w e).0
unfolding step connect_begin schedule_retry cycle_failed try_candidate scan_done attempt_failed
    bridge_lost lost_in disconnected got_ip retry soft_reset
step-IsGoing (begin negotiating started created) w t v = ground (arith, v, t)
step-IsGoing (awake negotiating started created) w t v = ground (arith, v, t)
step-IsGoing (reset negotiating started created) w t v = ground (arith, v, t)
step-IsGoing (scanned seen negotiating created) w t v = ground (arith, v, t)
step-IsGoing (lost negotiating created) w t v = ground (arith, v, t)
step-IsGoing (ip ppp) w t v = ground (arith, v, t)
step-IsGoing (edit c) w t v = ground (arith, t)
step-IsGoing clear_all w t v = ground (arith, t)
step-IsGoing (show app) w t v = ground (arith, v, t)

run-IsGoing : (es : List Event) (w : Wifi) → IsPlain w es → IsGoing w → IsGoing (run w es)
unfolding run
run-IsGoing [] w t v = v
run-IsGoing (e ∷ es) w (t, ts) v = run-IsGoing es (step w e).0 ts (step-IsGoing e w t v)

-- Whatever happens from the start on, with a network saved and the list left alone: while the state
-- says that the bridge scans, connects or has lost WiFi, a scan is under way, a candidate is being tried
-- or a retry waits, as long as the tasks that retry can be created
-- and no address comes during a scan.
pub cycle_goes_on :
    (l : List Cred) (es : List Event)
    → 0 < length l
    → IsPlain (at_boot l) es
    → is_going (run (at_boot l) es).app ≡ true
    → is_pending (run (at_boot l) es) ≡ true
cycle_goes_on l es h t = (run-IsGoing es (at_boot l) t (ground (arith, h))).pending
