-- ===== src/Wifi/Saved.antt =====
-- The saved networks of main/wifi_multi.c. The list is its first `count` entries; a text is the
-- list of its bytes before the NUL. A negative index is out of range, as one past the end is.
pub mod Lookup
pub mod Valid
use vetera_bridge.Prelude.{
  ℕ, zero, suc, ◌-◌, Bool, true, false, ◌&&◌, ◌||◌, Option, none, some, List, [], ◌∷◌, ◌++◌, ltb,
  leb, ◌==◌, if◌then◌else◌, length, get_elem?, take, replicate, bytes_eq,
}

abbrev pub wifi_list_max : ℕ
wifi_list_max = 8

-- `wifi_cred_t`
pub record Cred : Type 0 where
  pub ssid : List ℕ
  pub pass : List ℕ

-- An empty entry, as `memset` leaves it.
abbrev pub no_cred : Cred
no_cred = record { ssid = []; pass = [] }

abbrev behind : Cred → Option (List Cred) → Option (List Cred)
behind d none = none
behind d (some ds) = some (d ∷ ds)

-- The search for the SSID, and the entry written where it stands.
unfoldable pub replace : List Cred → Cred → Option (List Cred)
replace [] c = none
replace (d ∷ ds) c = if bytes_eq d.ssid c.ssid then some (c ∷ ds) else behind d (replace ds c)

-- A NULL password is an empty one.
abbrev pub pass_of : Option (List ℕ) → List ℕ
pass_of none = []
pass_of (some p) = p

-- The entry is appended where the SSID is new and there is room.
unfoldable pub put_cred : List Cred → Cred → List Cred × Bool
put_cred l c = elim (replace l c) [
  | some l' ↦ (l', true)
  | none ↦ if ltb (length l) wifi_list_max then (l ++ (c ∷ []), true) else (l, false)
]

-- `wifi_list_add`, with whether it took the network.
unfoldable pub list_add : List Cred → List ℕ → Option (List ℕ) → List Cred × Bool
list_add l ssid pass =
    if length ssid == 0 || ltb 32 (length ssid) || ltb 64 (length (pass_of pass))
    then (l, false)
    else put_cred l (record { ssid = ssid; pass = pass_of pass })

-- What is left of the list: the entries behind the index move up.
unfoldable pub remove_at : List Cred → ℕ → List Cred
remove_at [] i = []
remove_at (d ∷ ds) zero = ds
remove_at (d ∷ ds) (suc i) = d ∷ remove_at ds i

abbrev pub is_ssid_at : List Cred → ℕ → List ℕ → Bool
is_ssid_at l i ssid = elim (get_elem? l i) [ none ↦ false | some d ↦ bytes_eq d.ssid ssid ]

-- `wifi_list_remove`: the list, whether the index was in range, and whether WiFi is told to
-- disconnect.
unfoldable pub list_remove : List Cred → ℕ → List ℕ → Bool → List Cred × Bool × Bool
list_remove l i current connected =
    if ltb i (length l)
    then (remove_at l i, true, is_ssid_at l i current && connected)
    else (l, false, false)

-- The blob in flash.
pub record Blob : Type 0 where
  pub ver : ℕ
  pub count : ℕ
  pub e : List Cred

-- `nvs_list_save`: what it writes.
abbrev pub list_save : List Cred → Blob
list_save l = record {
  ver = 1;
  count = length l;
  e = l ++ replicate (wifi_list_max - length l) no_cred;
}

-- `nvs_list_load`: the list in memory afterwards, and whether it was read.
unfoldable pub list_load : List Cred → Option Blob → List Cred × Bool
list_load l none = (l, false)
list_load l (some b) =
    if b.ver == 1 && leb b.count wifi_list_max then (take b.count b.e, true) else (l, false)
