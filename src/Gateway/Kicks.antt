-- ===== src/Gateway/Kicks.antt =====
-- How PPP coming up starts WiFi in main/gateway.c.
use vetera_bridge.Prelude.{◌<◌, ◌≡◌, Bool, true, false, ◌||◌, List, [], ◌∷◌, arith, length, All}
use vetera_bridge.Wifi.Cycle.{
  AppState, wifi_failed, Wifi, schedule_retry, cycle_failed, connect_begin,
}
use vetera_bridge.Wifi.Cycle.Going.{is_pending}
use vetera_bridge.Gateway.{
  Gateway, on_rfcomm_opened, on_rfcomm_closed, reopen_due, wifi_kick_deferred, kick_ends, on_ppp_up,
  on_ppp_down, on_rssi, Event, rfcomm_opened, rfcomm_closed, ppp_up, ppp_down, reopens, web_kick,
  kick_over, rssi, wifi_event, step, run,
}

abbrev pub is_failed : AppState → Bool
is_failed wifi_failed = true
is_failed _ = false

begin_pends :
    (negotiating begun : Bool) (w : Wifi)
    → 0 < length w.saved
    → w.connected ≡ false
    → let w' = (connect_begin w negotiating begun true).0 in
      is_pending w' || is_failed w'.app ≡ true
unfolding connect_begin schedule_retry cycle_failed
begin_pends negotiating begun w h c = ground (arith, h, c)

abbrev pub is_kick_over : Event → Bool
is_kick_over (kick_over ppp negotiating begun created) = true
is_kick_over _ = false

step_waits :
    (e : Event) (g : Gateway)
    → is_kick_over e ≡ false
    → g.kick_running ≡ true
    → (step e g).kick_running ≡ true
unfolding step on_rfcomm_opened on_rfcomm_closed on_ppp_up on_ppp_down reopen_due wifi_kick_deferred
    kick_ends on_rssi
step_waits (rfcomm_opened handle) g n k = ground (arith, k)
step_waits rfcomm_closed g n k = ground (arith, k)
step_waits ppp_up g n k = ground (arith, k)
step_waits ppp_down g n k = ground (arith, k)
step_waits reopens g n k = ground (arith, k)
step_waits web_kick g n k = ground (arith, k)
step_waits (kick_over ppp negotiating begun created) g n k = ground (arith, n)
step_waits (rssi handle r) g n k = ground (arith, k)
step_waits (wifi_event e) g n k = k

run_waits :
    (es : List Event) (g : Gateway)
    → All (λ e. is_kick_over e ≡ false) es
    → g.kick_running ≡ true
    → (run es g).kick_running ≡ true
unfolding run
run_waits [] g n k = k
run_waits (e ∷ es) g (n, ns) k = run_waits es (step e g) ns (step_waits e g n k)

-- PPP comes up with networks saved and WiFi down. Whatever happens until the delay is over, a start
-- of WiFi waits; and if the phone is still up then, with a network saved and WiFi down, the end of the
-- delay leaves a scan under way, a candidate being tried or a retry waiting, or the retries are used up.
-- Tasks can be created.
pub ppp_up_starts_wifi :
    (es : List Event) (g : Gateway) (negotiating begun : Bool)
    → 0 < length g.wifi.saved
    → g.wifi.connected ≡ false
    → All (λ e. is_kick_over e ≡ false) es
    → let g' = run es (step ppp_up g) in
      let g'' = step (kick_over true negotiating begun true) g' in
      (g'.kick_running ≡ true)
      × (0 < length g'.wifi.saved
          → g'.wifi.connected ≡ false
          → is_pending g''.wifi || is_failed g''.wifi.app ≡ true)
unfolding step on_ppp_up wifi_kick_deferred kick_ends
ppp_up_starts_wifi es g negotiating begun h c n =
    let g' = run es (step ppp_up g) in
    (
      run_waits es (step ppp_up g) n (ground (arith, h, c)),
      (λ h' c'. ground (arith, h', c', begin_pends negotiating begun g'.wifi h' c')),
    )
