-- ===== src/Wifi/Scan.antt =====
-- The candidates of one scan in main/wifi_multi.c. A signal strength is the int8 of the driver plus
-- 128.
pub mod Better
pub mod Collect
pub mod Sort
use vetera_bridge.Prelude.{
  ℕ, Bool, false, not, ◌||◌, Option, none, some, List, [], ◌∷◌, ◌++◌, ltb, if◌then◌else◌, length,
  bytes_eq,
}
use vetera_bridge.Wifi.Saved.{wifi_list_max, Cred}

-- An access point of the scan.
pub record Seen : Type 0 where
  pub ssid : List ℕ
  pub rssi : ℕ

-- `candidates[i]` with `cand_rssi[i]`
pub record Candidate : Type 0 where
  pub cred : Cred
  pub rssi : ℕ

-- The saved entry of an SSID.
unfoldable pub find_saved : List Cred → List ℕ → Option Cred
find_saved [] s = none
find_saved (d ∷ ds) s = if bytes_eq s d.ssid then some d else find_saved ds s

abbrev behind_candidate : Candidate → Option (List Candidate) → Option (List Candidate)
behind_candidate c none = none
behind_candidate c (some cs) = some (c ∷ cs)

-- An SSID that is a candidate already keeps the better signal.
unfoldable pub keep_better : List Candidate → List ℕ → ℕ → Option (List Candidate)
keep_better [] s r = none
keep_better (c ∷ cs) s r =
    if bytes_eq c.cred.ssid s
    then some (record c { rssi = if ltb c.rssi r then r else c.rssi } ∷ cs)
    else behind_candidate c (keep_better cs s r)

unfoldable pub add_candidate : List Candidate → Cred → ℕ → List Candidate
add_candidate cs d r =
    if ltb (length cs) wifi_list_max then cs ++ (record { cred = d; rssi = r } ∷ []) else cs

-- One round of the loop over the access points.
unfoldable pub take_seen : List Cred → List Candidate → Seen → List Candidate
take_seen saved cs x = elim (find_saved saved x.ssid) [
  | none ↦ cs
  | some d ↦ elim (keep_better cs x.ssid x.rssi) [
    | some cs' ↦ cs'
    | none ↦ add_candidate cs d x.rssi
  ]
]

unfoldable pub collect : List Cred → List Candidate → List Seen → List Candidate
collect saved cs [] = cs
collect saved cs (x ∷ xs) = collect saved (take_seen saved cs x) xs

-- Whether the inner loop of the sort, which comes from the end, stops within these.
unfoldable pub stops_in : List Candidate → ℕ → Bool
stops_in [] r = false
stops_in (c ∷ cs) r = stops_in cs r || not (ltb c.rssi r)

-- The inner loop: the weaker ones at the end move up by one.
unfoldable pub insert : List Candidate → Candidate → List Candidate
insert [] c = c ∷ []
insert (x ∷ xs) c =
    let rest = insert xs c in
    if stops_in xs c.rssi || not (ltb x.rssi c.rssi) then x ∷ rest else c ∷ (x ∷ xs)

unfoldable pub sort_onto : List Candidate → List Candidate → List Candidate
sort_onto done [] = done
sort_onto done (c ∷ cs) = sort_onto (insert done c) cs

-- What `handle_scan_done` makes of the access points.
unfoldable pub scan_candidates : List Cred → List Seen → List Candidate
scan_candidates saved xs = sort_onto [] (collect saved [] xs)
