-- ===== src/Gateway/Shown.antt =====
-- What main/gateway.c shows: the bridge can be found whenever no phone is in session, and the state says
-- that it bridges only while WiFi is up.
use vetera_bridge.Prelude.{◌≡◌, Bool, true, false, ◌||◌, List, [], ◌∷◌, arith, if◌then◌else◌, All}
use vetera_bridge.Wifi.Saved.{Cred}
use vetera_bridge.Gateway.{
  no_handle, Gateway, on_rfcomm_opened, on_rfcomm_closed, reopen_due, wifi_kick_deferred, kick_ends,
  on_ppp_up, on_ppp_down, on_rssi, Event, rfcomm_opened, rfcomm_closed, ppp_up, ppp_down, reopens,
  web_kick, kick_over, rssi, wifi_event, step, run, at_boot,
}
use vetera_bridge.Wifi.Cycle.{is_bridge, disconnected, clear_list}
use vetera_bridge.Wifi.Cycle.Backoff.{lost, clear_all}
use vetera_bridge.Wifi.Cycle.Backoff
use vetera_bridge.Wifi.Cycle.Honest.{IsHonest, keeps_list, wifi-IsHonest, begin-IsHonest}

pub record IsVisible (g : Gateway) : Type 0 where
  pub hidden : g.bt_connected ≡ true → g.visible ≡ false
  pub found : g.bt_connected ≡ false → (g.visible || g.reopen ≡ true) × (g.bt_handle ≡ no_handle)
  pub one_kick : g.kicks ≡ (if g.kick_running then 1 else 0)

step-IsVisible : (e : Event) (g : Gateway) → IsVisible g → IsVisible (step e g)
unfolding step on_rfcomm_opened on_rfcomm_closed on_ppp_up on_ppp_down reopen_due wifi_kick_deferred
    kick_ends on_rssi
step-IsVisible (rfcomm_opened handle) g v = ground (arith, v)
step-IsVisible rfcomm_closed g v = ground (arith, v)
step-IsVisible ppp_up g v = ground (arith, v)
step-IsVisible ppp_down g v = ground (arith, v)
step-IsVisible reopens g v = ground (arith, v)
step-IsVisible web_kick g v = ground (arith, v)
step-IsVisible (kick_over ppp negotiating begun created) g v = ground (arith, v)
step-IsVisible (rssi handle r) g v = ground (arith, v)
step-IsVisible (wifi_event e) g v = record {
  hidden = v.hidden;
  found = v.found;
  one_kick = v.one_kick;
}

run-IsVisible : (es : List Event) (g : Gateway) → IsVisible g → IsVisible (run es g)
unfolding run
run-IsVisible [] g v = v
run-IsVisible (e ∷ es) g v = run-IsVisible es (step e g) (step-IsVisible e g v)

-- Whatever happens from the start on: while a phone is in session the bridge is hidden; while none is,
-- it is visible or the timer that shows it again runs, and no handle of a phone is kept; and at most
-- one deferred start of WiFi waits, just while its guard is set.
pub run-at_boot-IsVisible : (l : List Cred) (es : List Event) → IsVisible (run es (at_boot l))
unfolding at_boot
run-at_boot-IsVisible l es = run-IsVisible es (at_boot l) (ground arith)

-- The gateway's events that leave the manager's list as it is or edit it.
abbrev pub is_tame : Event → Bool
is_tame (wifi_event e) = keeps_list e
is_tame _ = true

step-IsHonest :
    (e : Event) (g : Gateway) → is_tame e ≡ true → IsHonest g.wifi → IsHonest (step e g).wifi
unfolding step on_rfcomm_opened on_rfcomm_closed on_ppp_up on_ppp_down reopen_due wifi_kick_deferred
    kick_ends on_rssi
step-IsHonest (rfcomm_opened handle) g t v = v
step-IsHonest rfcomm_closed g t v = ground (arith, v)
step-IsHonest ppp_up g t v = ground (arith, v)
step-IsHonest ppp_down g t v = ground (arith, v)
step-IsHonest reopens g t v = v
step-IsHonest web_kick g t v = ground (arith, v)
step-IsHonest (kick_over ppp negotiating begun created) g t v =
    ground (arith, v, begin-IsHonest negotiating begun created g.wifi v)
step-IsHonest (rssi handle r) g t v = ground (arith, v)
step-IsHonest (wifi_event e) g t v = wifi-IsHonest e g.wifi t v

run-IsHonest :
    (es : List Event) (g : Gateway)
    → All (λ e. is_tame e ≡ true) es
    → IsHonest g.wifi
    → IsHonest (run es g).wifi
unfolding run
run-IsHonest [] g t v = v
run-IsHonest (e ∷ es) g (t, ts) v = run-IsHonest es (step e g) ts (step-IsHonest e g t v)

-- Whatever happens from the start on, as long as the list of networks is not cleared: the state says
-- that the bridge is active only while WiFi is connected.
pub bridge_is_connected :
    (l : List Cred) (es : List Event)
    → All (λ e. is_tame e ≡ true) es
    → is_bridge (run es (at_boot l)).wifi.app ≡ true
    → (run es (at_boot l)).wifi.connected ≡ true
unfolding at_boot
bridge_is_connected l es t = (run-IsHonest es (at_boot l) t (ground arith)).bridging

-- With the list cleared while WiFi is up, PPP can come up before the driver tells of the loss, which is
-- then ignored: the state says that the bridge is active without WiFi.
cleared_shows_bridge :
    (g : Gateway) (negotiating created : Bool)
    → g.wifi.connected ≡ true
    → let es = wifi_event clear_all ∷ ppp_up ∷ wifi_event (lost negotiating created) ∷ [] in
      (is_bridge (run es g).wifi.app ≡ true) × ((run es g).wifi.connected ≡ false)
unfolding run step on_ppp_up Backoff.step clear_list disconnected
cleared_shows_bridge g negotiating created c = ground (arith, c)
