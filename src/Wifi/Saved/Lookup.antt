-- ===== src/Wifi/Saved/Lookup.antt =====
-- What the saved list of main/wifi_multi.c knows, as a map from SSIDs to passwords.
use mathlib.Core.Option.{none-ne-some}
use vetera_bridge.Prelude.{
  ℕ, ◌-◌, ◌≤◌, ◌≡◌, refl, ap, inl, inr, true, false, Option, none, some, List, [], ◌∷◌, ◌++◌, arith,
  if◌then◌else◌, Bool-cases, Option-cases, length, replicate, bytes_eq, bytes_eq→eq, take-append,
}
use vetera_bridge.Wifi.Saved.{
  Cred, no_cred, replace, pass_of, put_cred, list_add, list_save, list_load,
}

unfoldable pub password_of : List Cred → List ℕ → Option (List ℕ)
password_of [] s = none
password_of (d ∷ ds) s = if bytes_eq d.ssid s then some d.pass else password_of ds s

-- The map after a write.
abbrev pub updated : List Cred → Cred → List ℕ → Option (List ℕ)
updated l c s = if bytes_eq c.ssid s then some c.pass else password_of l s

-- The search replaces the entry of the SSID and no other.
pub replace_lem :
    (l : List Cred) (c : Cred) (l' : List Cred) (s : List ℕ)
    → replace l c ≡ some l'
    → (password_of l' s ≡ updated l c s) × (length l' ≡ length l)
unfolding replace password_of
replace_lem [] c l' s h = absurd (none-ne-some _ h)
replace_lem (d ∷ ds) c l' s h = elim (Bool-cases (bytes_eq d.ssid c.ssid)) [
  | inl same ↦ ground (arith, bytes_eq→eq d.ssid c.ssid same)
  | inr other ↦ elim (Option-cases (replace ds c)) [
    | inl e ↦ ground arith
    | inr (ds', e) ↦
        let ih = replace_lem ds c ds' s e in
        elim (Bool-cases (bytes_eq c.ssid s)) [
          | inl at ↦ ground (arith, ih, ap (bytes_eq d.ssid) (bytes_eq→eq c.ssid s at))
          | inr away ↦ ground (arith, ih)
        ]
  ]
]

-- Where the search finds nothing, the entry at the end is the one of its SSID.
append_lem :
    (l : List Cred) (c : Cred) (s : List ℕ)
    → replace l c ≡ none
    → password_of (l ++ (c ∷ [])) s ≡ updated l c s
unfolding replace password_of
append_lem [] c s h = refl
append_lem (d ∷ ds) c s h = elim (Bool-cases (bytes_eq d.ssid c.ssid)) [
  | inl same ↦ ground arith
  | inr other ↦ elim (Option-cases (replace ds c)) [
    | inl e ↦ elim (Bool-cases (bytes_eq c.ssid s)) [
      | inl at ↦ ground (arith, append_lem ds c s e, ap (bytes_eq d.ssid) (bytes_eq→eq c.ssid s at))
      | inr away ↦ ground (arith, append_lem ds c s e)
    ]
    | inr (ds', e) ↦ ground arith
  ]
]

put_cred_lem :
    (l : List Cred) (c : Cred) (s : List ℕ)
    → ((put_cred l c).1 ≡ true → password_of (put_cred l c).0 s ≡ updated l c s)
      × ((put_cred l c).1 ≡ false → (put_cred l c).0 ≡ l)
unfolding put_cred
put_cred_lem l c s = elim (Option-cases (replace l c)) [
  | inl e ↦ ground (arith, append_lem l c s e)
  | inr (l', e) ↦ ground (arith, replace_lem l c l' s e)
]

-- A network that is taken is known afterwards by its new password, and what the list knows of every
-- other network stays; a network that is not taken leaves the list as it was.
pub list_add_lem :
    (l : List Cred) (ssid : List ℕ) (pass : Option (List ℕ)) (s : List ℕ)
    → ((list_add l ssid pass).1 ≡ true
        → password_of (list_add l ssid pass).0 s
          ≡ (if bytes_eq ssid s then some (pass_of pass) else password_of l s))
      × ((list_add l ssid pass).1 ≡ false → (list_add l ssid pass).0 ≡ l)
unfolding list_add
list_add_lem l ssid pass s =
    ground (arith, put_cred_lem l (record { ssid = ssid; pass = pass_of pass }) s)

-- What is written to flash reads back as the same list, whatever list was in memory, if the list has
-- at most eight entries.
pub load-save :
    (l other : List Cred) → length l ≤ 8 → list_load other (some (list_save l)) ≡ (l, true)
unfolding list_load
load-save l other h = ground (arith, take-append l (replicate (8 - length l) no_cred))
