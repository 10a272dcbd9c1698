-- ===== src/Gateway/Tests.antt =====
-- A day of main/gateway.c.
use vetera_bridge.Prelude.{
  ◌<◌, ◌≡◌, refl, true, false, ◌||◌, List, [], ◌∷◌, ◌++◌, arith, length, codes,
}
use vetera_bridge.Wifi.Saved.{Cred}
use vetera_bridge.Wifi.Cycle.{schedule_retry, cycle_failed, connect_begin, scan_done, got_ip}
use vetera_bridge.Wifi.Cycle.Going.{is_pending}
use vetera_bridge.Wifi.Cycle.Backoff
use vetera_bridge.Gateway.{
  on_rfcomm_opened, wifi_kick_deferred, kick_ends, on_ppp_up, Event, rfcomm_opened, rfcomm_closed,
  ppp_up, reopens, web_kick, kick_over, wifi_event, step, run, at_boot,
}
use vetera_bridge.Gateway.Shown.{IsVisible, run-at_boot-IsVisible, bridge_is_connected}
use vetera_bridge.Gateway.Kicks.{is_failed, ppp_up_starts_wifi}

abbrev home : Cred
home = record { ssid = codes "home"; pass = codes "secret" }

-- A phone dials in, WiFi comes up after the delay, and the phone hangs up.
abbrev dial_in : List Event
dial_in =
    rfcomm_opened 64
    ∷ ppp_up
    ∷ kick_over true false true true
    ∷ wifi_event (Backoff.scanned [] false true)
    ∷ wifi_event (Backoff.ip true)
    ∷ []

run-at_boot-IsVisible_example :
    IsVisible (run (dial_in ++ (rfcomm_closed ∷ [])) (at_boot (home ∷ [])))
run-at_boot-IsVisible_example = run-at_boot-IsVisible (home ∷ []) (dial_in ++ (rfcomm_closed ∷ []))

bridge_is_connected_example : (run dial_in (at_boot (home ∷ []))).wifi.connected ≡ true
unfolding run step on_rfcomm_opened on_ppp_up wifi_kick_deferred kick_ends at_boot connect_begin
    scan_done cycle_failed schedule_retry got_ip Backoff.step
bridge_is_connected_example =
    bridge_is_connected (home ∷ []) dial_in (refl, (refl, (refl, (refl, (refl, tt))))) refl

ppp_up_starts_wifi_example :
    let g' = run (web_kick ∷ reopens ∷ []) (step ppp_up (at_boot (home ∷ []))) in
    let g'' = step (kick_over true true true true) g' in
    (g'.kick_running ≡ true)
    × (0 < length g'.wifi.saved
        → g'.wifi.connected ≡ false
        → is_pending g''.wifi || is_failed g''.wifi.app ≡ true)
unfolding at_boot
ppp_up_starts_wifi_example =
    ppp_up_starts_wifi (web_kick ∷ reopens ∷ []) (at_boot (home ∷ [])) true true (omega arith) refl
      (refl, (refl, tt))
