-- ===== src/Wifi/Cycle/Waits.antt =====
-- How long the retries of main/wifi_multi.c wait.
use vetera_bridge.Prelude.{
  ℕ, ◌+◌, ◌*◌, ◌^◌, min, ◌≡◌, refl, Bool, true, false, not, ◌&&◌, ◌||◌, List, ltb, ◌==◌, if_cases,
  length, take, All,
}
use vetera_bridge.Wifi.Saved.{Cred, list_remove}
use vetera_bridge.Wifi.Saved.Valid.{Change, add, remove, clear}
use vetera_bridge.Wifi.Scan.{Seen, scan_candidates}
use vetera_bridge.Wifi.Cycle.{
  AppState, no_wifi, wifi_scanning, bridge, is_bridge_no_wifi, wifi_max_retries, retry_base_ms,
  cand_max_attempts, recheck_ms, Wifi, Act, retry_after, Result, schedule_retry, cycle_failed,
  try_candidate, connect_begin, scan_done, attempt_failed, bridge_lost, lost_in, disconnected,
  got_ip, retry, clear_list, soft_reset,
}
use vetera_bridge.Wifi.Cycle.Backoff.{
  Event, begin, awake, reset, scanned, lost, ip, edit, clear_all, show, told_by, step, run, at_boot,
  IsWifi, run-IsWifi,
}

-- Whether a phone is negotiating when the event comes.
abbrev pub is_negotiating : Event → Bool
is_negotiating (begin negotiating started created) = negotiating
is_negotiating (awake negotiating started created) = negotiating
is_negotiating (reset negotiating started created) = negotiating
is_negotiating (scanned seen negotiating created) = negotiating
is_negotiating (lost negotiating created) = negotiating
is_negotiating _ = false

-- A reason for a wait of `ms`, with the counts of failed cycles before and after the step.
pub data Waits (negotiating : Bool) (before after ms : ℕ) : Type 0 where
  rechecks : negotiating ≡ true → after ≡ before → ms ≡ 3000 → Waits negotiating before after ms
  starts_over : after ≡ 0 → ms ≡ 1000 → Waits negotiating before after ms
  backs_off :
      after ≡ before + 1 → ms ≡ min (1000 * 2 ^ before) 30000 → Waits negotiating before after ms

abbrev pub WaitsFor : Bool → ℕ → ℕ → Act → Type 0
WaitsFor negotiating before after (retry_after ms) = Waits negotiating before after ms
WaitsFor negotiating before after _ = Unit

-- Every retry that a step schedules waits for a reason.
abbrev pub IsTimed : Bool → ℕ → Result → Type 0
IsTimed negotiating before r = All (WaitsFor negotiating before r.0.retries) r.1

abbrev IsPaced : Wifi → Type 0
IsPaced w = w.delay ≡ min (1000 * 2 ^ w.retries) 30000

schedule_retry-IsTimed :
    (w : Wifi) (ms : ℕ) (created negotiating : Bool) (before : ℕ)
    → Waits negotiating before w.retries ms
    → IsTimed negotiating before (schedule_retry w ms created)
unfolding schedule_retry
schedule_retry-IsTimed w ms created negotiating before h =
    if_cases (IsTimed negotiating before) w.retry_running (λ _. tt)
      (λ _. if_cases (IsTimed negotiating before) created (λ _. (h, tt)) (λ _. tt))

cycle_failed-IsTimed :
    (w : Wifi) (created negotiating : Bool)
    → IsPaced w
    → IsTimed negotiating w.retries (cycle_failed w created)
unfolding cycle_failed
cycle_failed-IsTimed w created negotiating d =
    if_cases (IsTimed negotiating w.retries)
      (is_bridge_no_wifi w.app || ltb (w.retries + 1) wifi_max_retries)
      (λ _. schedule_retry-IsTimed _ w.delay created negotiating w.retries (backs_off refl d))
      (λ _. tt)

try_candidate-IsTimed :
    (w : Wifi) (negotiating created : Bool)
    → IsTimed negotiating w.retries (try_candidate w negotiating created)
unfolding try_candidate
try_candidate-IsTimed w negotiating created =
    if_cases (IsTimed negotiating w.retries) negotiating
      (λ n.
        schedule_retry-IsTimed _ recheck_ms created negotiating w.retries (rechecks n refl refl))
      (λ _. (tt, (tt, tt)))

connect_begin-IsTimed :
    (w : Wifi) (negotiating started created : Bool)
    → IsPaced w
    → IsTimed negotiating w.retries (connect_begin w negotiating started created)
unfolding connect_begin
connect_begin-IsTimed w negotiating started created d =
    let Good = IsTimed negotiating w.retries in
    if_cases Good (length w.saved == 0) (λ _. tt)
      (λ _.
        if_cases Good (w.connected || w.scanning || ltb 0 (length w.cands)) (λ _. tt)
          (λ _.
            if_cases Good negotiating
              (λ n.
                schedule_retry-IsTimed w recheck_ms created negotiating w.retries
                  (rechecks n refl refl))
              (λ _.
                if_cases Good started (λ _. (tt, tt))
                  (λ _. (tt, cycle_failed-IsTimed _ created negotiating d)))))

retry-IsTimed :
    (w : Wifi) (negotiating started created : Bool)
    → IsPaced w
    → IsTimed negotiating w.retries (retry w negotiating started created)
unfolding retry
retry-IsTimed w negotiating started created d =
    if_cases (IsTimed negotiating w.retries) (ltb 0 (length w.saved) && not w.connected)
      (λ _. connect_begin-IsTimed _ negotiating started created d) (λ _. tt)

soft_reset-IsTimed :
    (w : Wifi) (negotiating started created : Bool)
    → IsPaced w
    → IsTimed negotiating w.retries (soft_reset w negotiating started created)
unfolding soft_reset
soft_reset-IsTimed w negotiating started created d =
    if_cases (IsTimed negotiating w.retries) (ltb 0 (length w.saved))
      (λ _. (tt, connect_begin-IsTimed _ negotiating started created d)) (λ _. (tt, tt))

scan_done-IsTimed :
    (w : Wifi) (seen : List Seen) (negotiating created : Bool)
    → IsPaced w
    → IsTimed negotiating w.retries (scan_done w seen negotiating created)
unfolding scan_done
scan_done-IsTimed w seen negotiating created d =
    if_cases (IsTimed negotiating w.retries) w.scanning
      (λ _.
        if_cases (IsTimed negotiating w.retries)
          (length (scan_candidates w.saved (take 24 seen)) == 0)
          (λ _. cycle_failed-IsTimed _ created negotiating d)
          (λ _. try_candidate-IsTimed _ negotiating created))
      (λ _. tt)

attempt_failed-IsTimed :
    (w : Wifi) (negotiating created : Bool)
    → IsPaced w
    → IsTimed negotiating w.retries (attempt_failed w negotiating created)
unfolding attempt_failed
attempt_failed-IsTimed w negotiating created d =
    let Good = IsTimed negotiating w.retries in
    if_cases Good (length w.cands == 0) (λ _. cycle_failed-IsTimed w created negotiating d)
      (λ _.
        if_cases Good negotiating
          (λ n.
            schedule_retry-IsTimed _ recheck_ms created negotiating w.retries
              (rechecks n refl refl))
          (λ _.
            if_cases Good (ltb (w.attempts + 1) cand_max_attempts) (λ _. (tt, tt))
              (λ _.
                if_cases Good (ltb (w.index + 1) (length w.cands))
                  (λ _. try_candidate-IsTimed _ negotiating created)
                  (λ _. cycle_failed-IsTimed _ created negotiating d))))

bridge_lost-IsTimed :
    (w : Wifi) (negotiating created : Bool) → IsTimed negotiating w.retries (bridge_lost w created)
unfolding bridge_lost
bridge_lost-IsTimed w negotiating created =
    if_cases (IsTimed negotiating w.retries) (length w.saved == 0) (λ _. tt)
      (λ _.
        schedule_retry-IsTimed _ retry_base_ms created negotiating w.retries
          (starts_over refl refl))

lost_in-IsTimed :
    (app : AppState) (w : Wifi) (negotiating created : Bool)
    → IsPaced w
    → IsTimed negotiating w.retries (lost_in app w negotiating created)
unfolding lost_in
lost_in-IsTimed bridge w negotiating created d = bridge_lost-IsTimed w negotiating created
lost_in-IsTimed no_wifi w negotiating created d = tt
lost_in-IsTimed wifi_scanning w negotiating created d = tt
lost_in-IsTimed _ w negotiating created d = attempt_failed-IsTimed w negotiating created d

disconnected-IsTimed :
    (w : Wifi) (negotiating created : Bool)
    → IsPaced w
    → IsTimed negotiating w.retries (disconnected w negotiating created)
unfolding disconnected
disconnected-IsTimed w negotiating created d =
    if_cases (IsTimed negotiating w.retries) w.ignore (λ _. (tt, tt))
      (λ _. (tt, lost_in-IsTimed w.app _ negotiating created d))

edit-IsTimed : (w : Wifi) (c : Change) → All (WaitsFor false w.retries w.retries) (told_by c w)
edit-IsTimed w (remove i _ _) =
    if_cases (All (WaitsFor false w.retries w.retries))
      (list_remove w.saved i w.current w.connected).2 (λ _. (tt, tt)) (λ _. tt)
edit-IsTimed w (add ssid pass) = tt
edit-IsTimed w clear = tt

step-IsTimed : (w : Wifi) (e : Event) → IsPaced w → IsTimed (is_negotiating e) w.retries (step w e)
unfolding step got_ip clear_list
step-IsTimed w (begin negotiating started created) d =
    connect_begin-IsTimed w negotiating started created d
step-IsTimed w (awake negotiating started created) d = retry-IsTimed w negotiating started created d
step-IsTimed w (reset negotiating started created) d =
    soft_reset-IsTimed w negotiating started created d
step-IsTimed w (scanned seen negotiating created) d = scan_done-IsTimed w seen negotiating created d
step-IsTimed w (lost negotiating created) d = disconnected-IsTimed w negotiating created d
step-IsTimed w (ip ppp) d = (tt, tt)
step-IsTimed w (edit c) d = edit-IsTimed w c
step-IsTimed w clear_all d = (tt, tt)
step-IsTimed w (show app) d = tt

-- From boot on, whatever the driver, the timers and the pages do: a retry that is scheduled waits one
-- second, doubled for each cycle that had failed since the count was last set to zero, and at most 30 seconds, when a
-- further cycle fails; three seconds when a phone is negotiating; and one second when the bridge has lost
-- WiFi, which starts the count anew. The candidate in hand is one of the list, it has at most one
-- failed attempt behind it, and no scan runs while candidates are tried.
pub retry_waits :
    (l : List Cred) (es : List Event) (e : Event)
    → let w = run (at_boot l) es in IsWifi w × IsTimed (is_negotiating e) w.retries (step w e)
retry_waits l es e = let k = run-IsWifi l es in (k, step-IsTimed (run (at_boot l) es) e k.delay_is)
