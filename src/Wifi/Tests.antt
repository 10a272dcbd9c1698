-- ===== src/Wifi/Tests.antt =====
-- The theorems on main/wifi_multi.c at concrete networks.
use vetera_bridge.Prelude.{
  ℕ, ◌≤◌, ◌≡◌, refl, ◌↔◌, true, false, none, some, List, [], ◌∷◌, arith, if◌then◌else◌, length,
  replicate, All, codes, bytes_eq,
}
use vetera_bridge.Wifi.Saved.{Cred, list_add}
use vetera_bridge.Wifi.Saved.Lookup.{password_of, list_add_lem}
use vetera_bridge.Wifi.Saved.Valid.{IsList, Change, add, remove, changes, changes-IsList}
use vetera_bridge.Wifi.Scan.{
  Seen, find_saved, keep_better, add_candidate, take_seen, collect, stops_in, insert, sort_onto,
  scan_candidates,
}
use vetera_bridge.Wifi.Scan.Sort.{IsSorted, rssi_of, IsDistinct}
use vetera_bridge.Wifi.Scan.Better.{best_onto, is_known}
use vetera_bridge.Wifi.Scan.Collect.{scan_candidates_lem}
use vetera_bridge.Wifi.Cycle.Going.{is_pending, cycle_goes_on}
use vetera_bridge.Wifi.Cycle.{bridge_no_wifi, configure, station_config, connect_begin}
use vetera_bridge.Wifi.Watchdog.Tenth.{Beat, beat}
use vetera_bridge.Wifi.Cycle.Waits.{IsTimed, retry_waits}
use vetera_bridge.Wifi.Cycle.Backoff.{
  Event, begin, awake, scanned, lost, step, run, at_boot, IsWifi, station_config_iff,
}

abbrev home : Cred
home = record { ssid = codes "home"; pass = codes "secret77" }

abbrev cafe : Cred
cafe = record { ssid = codes "cafe"; pass = [] }

abbrev two_nets : List Cred
two_nets = home ∷ cafe ∷ []

-- The password of the first network is changed.
list_add_lem_example :
    ((list_add two_nets (codes "home") (some (codes "newpass1"))).1 ≡ true
      → password_of (list_add two_nets (codes "home") (some (codes "newpass1"))).0 (codes "home")
        ≡ (if bytes_eq (codes "home") (codes "home")
            then some (codes "newpass1")
            else password_of two_nets (codes "home")))
    × ((list_add two_nets (codes "home") (some (codes "newpass1"))).1 ≡ false
        → (list_add two_nets (codes "home") (some (codes "newpass1"))).0 ≡ two_nets)
list_add_lem_example = list_add_lem two_nets (codes "home") (some (codes "newpass1")) (codes "home")

abbrev some_changes : List Change
some_changes =
    add (codes "shop") none
    ∷ remove 0 (codes "home") true
    ∷ add (codes "cafe") (some (codes "x"))
    ∷ []

none-IsList : IsList []
none-IsList = record { creds = tt; distinct = tt; fits = omega arith }

changes-IsList_example : IsList (changes [] some_changes)
changes-IsList_example = changes-IsList some_changes [] none-IsList

-- The cafe is seen twice, stronger than home, which is seen once, among a stranger's network.
abbrev seen_nets : List Seen
seen_nets =
    record { ssid = codes "cafe"; rssi = 40 }
    ∷ record { ssid = codes "other"; rssi = 99 }
    ∷ record { ssid = codes "home"; rssi = 60 }
    ∷ record { ssid = codes "cafe"; rssi = 70 }
    ∷ []

scan_order :
    scan_candidates two_nets seen_nets
    ≡ record { cred = cafe; rssi = 70 } ∷ record { cred = home; rssi = 60 } ∷ []
unfolding scan_candidates sort_onto insert stops_in collect take_seen add_candidate keep_better
    find_saved bytes_eq
scan_order = refl

scan_candidates_lem_example :
    IsSorted (scan_candidates two_nets seen_nets)
    × All (λ c. find_saved two_nets c.cred.ssid ≡ some c.cred) (scan_candidates two_nets seen_nets)
    × ((s : List ℕ)
        → rssi_of (scan_candidates two_nets seen_nets) s
          ≡ (if is_known two_nets s then best_onto none seen_nets s else none))
    × IsDistinct (scan_candidates two_nets seen_nets)
    × (length (scan_candidates two_nets seen_nets) ≤ length two_nets)
scan_candidates_lem_example = scan_candidates_lem two_nets seen_nets (omega arith)

-- A scan that finds nothing, a retry, and a scan whose first candidate fails twice.
abbrev rough_start : List Event
rough_start =
    begin false true true
    ∷ scanned [] false true
    ∷ awake false true true
    ∷ scanned seen_nets false true
    ∷ lost false true
    ∷ lost false true
    ∷ []

-- The scan that the retry begins finds nothing either.
retry_waits_example :
    let w =
      run
        (at_boot two_nets)
        (begin false true true ∷ scanned [] false true ∷ awake false true true ∷ []) in
    IsWifi w × IsTimed false w.retries (step w (scanned [] false true))
retry_waits_example =
    retry_waits two_nets
      (begin false true true ∷ scanned [] false true ∷ awake false true true ∷ [])
      (scanned [] false true)

-- An SSID of 32 bytes reaches the driver without its last byte.
abbrev long_net : Cred
long_net = record { ssid = replicate 32 b'a'; pass = codes "secret77" }

station_config_iff_example :
    (station_config long_net ≡ configure (replicate 32 b'a') (codes "secret77"))
    ↔ ((32 ≤ 31) × (8 ≤ 63))
station_config_iff_example = station_config_iff long_net

-- Nine heartbeats without WiFi, and the tenth.
abbrev nine_beats : List Beat
nine_beats = replicate 9 (beat bridge_no_wifi)

cycle_goes_on_example : is_pending (run (at_boot two_nets) (begin false true true ∷ [])) ≡ true
unfolding run step connect_begin
cycle_goes_on_example =
    cycle_goes_on two_nets (begin false true true ∷ []) (omega arith) (refl, tt) refl
