-- ===== src/Wifi/Saved/Valid.antt =====
-- The saved list of main/wifi_multi.c stays valid.
use mathlib.Core.Option.{some-injective, none-ne-some}
use vetera_bridge.Prelude.{
  ℕ, zero, suc, ◌≤◌, ◌<◌, ◌≡◌, sym, ap, subst, ◌≢◌, ◌⊎◌, inl, inr, Bool, ◌||◌, Option, none, some,
  List, [], ◌∷◌, ◌++◌, arith, ltb, ◌==◌, Bool-cases, Option-cases, length, All, length-append,
  bytes_eq, bytes_eq→eq, bytes_eq_refl,
}
use vetera_bridge.Wifi.Saved.Lookup.{replace_lem}
use vetera_bridge.Wifi.Saved.{Cred, replace, pass_of, put_cred, list_add, remove_at, list_remove}

-- What fits the buffers of an entry, with an SSID.
abbrev pub IsCred : Cred → Type 0
IsCred c = (0 < length c.ssid) × (length c.ssid ≤ 32) × (length c.pass ≤ 64)

abbrev pub NotIn : List Cred → List ℕ → Type 0
NotIn l s = All (λ (d : Cred). d.ssid ≢ s) l

-- No SSID stands twice.
abbrev pub Distinct : List Cred → Type 0
Distinct [] = Unit
Distinct (c ∷ cs) = NotIn cs c.ssid × Distinct cs

pub record IsList (l : List Cred) : Type 0 where
  pub creds : All IsCred l
  pub distinct : Distinct l
  pub fits : length l ≤ 8

-- A change of the list.
pub data Change : Type 0 where
  add : List ℕ → Option (List ℕ) → Change
  remove : ℕ → List ℕ → Bool → Change
  clear : Change

unfoldable pub change : List Cred → Change → List Cred
change l (add ssid pass) = (list_add l ssid pass).0
change l (remove i current connected) = (list_remove l i current connected).0
change l clear = []

unfoldable pub changes : List Cred → List Change → List Cred
changes l [] = l
changes l (c ∷ cs) = changes (change l c) cs

module _ {κ} (P : Cred → Type κ) where
  replace-All :
      (l : List Cred) (c : Cred) (l' : List Cred) → replace l c ≡ some l' → P c → All P l → All P l'
  unfolding replace
  replace-All [] c l' h n k = absurd (none-ne-some _ h)
  replace-All (d ∷ ds) c l' h n k = elim (Bool-cases (bytes_eq d.ssid c.ssid)) [
    | inl same ↦ let at : c ∷ ds ≡ l' = some-injective _ _ (ground arith) in rw (← at) (n, k.1)
    | inr other ↦ elim (Option-cases (replace ds c)) [
      | inl e ↦ absurd (ground arith)
      | inr (ds', e) ↦
          let at : d ∷ ds' ≡ l' = some-injective _ _ (ground arith) in
          rw (← at) (k.0, replace-All ds c ds' e n k.1)
    ]
  ]

  remove_at-All : (l : List Cred) (i : ℕ) → All P l → All P (remove_at l i)
  unfolding remove_at
  remove_at-All [] i k = tt
  remove_at-All (d ∷ ds) zero k = k.1
  remove_at-All (d ∷ ds) (suc i) k = (k.0, remove_at-All ds i k.1)

  All-snoc : (l : List Cred) (c : Cred) → All P l → P c → All P (l ++ (c ∷ []))
  All-snoc [] c k n = (n, tt)
  All-snoc (d ∷ ds) c k n = (k.0, All-snoc ds c k.1 n)

replace-Distinct :
    (l : List Cred) (c : Cred) (l' : List Cred) → replace l c ≡ some l' → Distinct l → Distinct l'
unfolding replace
replace-Distinct [] c l' h k = absurd (none-ne-some _ h)
replace-Distinct (d ∷ ds) c l' h k = elim (Bool-cases (bytes_eq d.ssid c.ssid)) [
  | inl same ↦
      let at : c ∷ ds ≡ l' = some-injective _ _ (ground arith) in
      rw (← at) (rw (bytes_eq→eq d.ssid c.ssid same) at k)
  | inr other ↦ elim (Option-cases (replace ds c)) [
    | inl e ↦ absurd (ground arith)
    | inr (ds', e) ↦
        let at : d ∷ ds' ≡ l' = some-injective _ _ (ground arith) in
        let away : c.ssid ≢ d.ssid =
          λ s. absurd (ground (arith, ap (bytes_eq d.ssid) s, bytes_eq_refl d.ssid)) in
        rw (← at)
          (replace-All (λ x. x.ssid ≢ d.ssid) ds c ds' e away k.0, replace-Distinct ds c ds' e k.1)
  ]
]

-- Where the search finds nothing, the SSID is new.
replace-none-NotIn : (l : List Cred) (c : Cred) → replace l c ≡ none → NotIn l c.ssid
unfolding replace
replace-none-NotIn [] c h = tt
replace-none-NotIn (d ∷ ds) c h = elim (Bool-cases (bytes_eq d.ssid c.ssid)) [
  | inl same ↦ absurd (ground arith)
  | inr other ↦ elim (Option-cases (replace ds c)) [
    | inl e ↦ (
      (λ s. absurd (ground (arith, ap (bytes_eq d.ssid) s, bytes_eq_refl d.ssid))),
      replace-none-NotIn ds c e,
    )
    | inr (ds', e) ↦ absurd (ground arith)
  ]
]

Distinct-snoc : (l : List Cred) (c : Cred) → Distinct l → NotIn l c.ssid → Distinct (l ++ (c ∷ []))
Distinct-snoc [] c k n = (tt, tt)
Distinct-snoc (d ∷ ds) c k n =
    (All-snoc (λ x. x.ssid ≢ d.ssid) ds c k.0 (λ s. n.0 (sym s)), Distinct-snoc ds c k.1 n.1)

remove_at-Distinct : (l : List Cred) (i : ℕ) → Distinct l → Distinct (remove_at l i)
unfolding remove_at
remove_at-Distinct [] i k = tt
remove_at-Distinct (d ∷ ds) zero k = k.1
remove_at-Distinct (d ∷ ds) (suc i) k =
    (remove_at-All (λ x. x.ssid ≢ d.ssid) ds i k.0, remove_at-Distinct ds i k.1)

length-remove_at : (l : List Cred) (i : ℕ) → length (remove_at l i) ≤ length l
unfolding remove_at
length-remove_at [] i = omega arith
length-remove_at (d ∷ ds) zero = omega arith
length-remove_at (d ∷ ds) (suc i) = omega (arith, length-remove_at ds i)

put_new-IsList :
    (l : List Cred) (c : Cred)
    → replace l c ≡ none
    → IsCred c
    → IsList l
    → length l < 8
    → IsList (l ++ (c ∷ []))
put_new-IsList l c e n k room = record {
  creds = All-snoc IsCred l c k.creds n;
  distinct = Distinct-snoc l c k.distinct (replace-none-NotIn l c e);
  fits = omega (arith, room, length-append l (c ∷ []));
}

put_over-IsList :
    (l : List Cred) (c : Cred) (l' : List Cred)
    → replace l c ≡ some l'
    → IsCred c
    → IsList l
    → IsList l'
put_over-IsList l c l' e n k = record {
  creds = replace-All IsCred l c l' e n k.creds;
  distinct = replace-Distinct l c l' e k.distinct;
  fits = omega (arith, k.fits, (replace_lem l c l' [] e).1);
}

-- Either the list is as before, or it is one of the two above.
put_cred_cases :
    (l : List Cred) (c : Cred)
    → ((put_cred l c).0 ≡ l)
      ⊎ (((replace l c ≡ none) × (length l < 8) × ((put_cred l c).0 ≡ l ++ (c ∷ [])))
          ⊎ ((l' : List Cred) × (replace l c ≡ some l') × ((put_cred l c).0 ≡ l')))
unfolding put_cred
put_cred_cases l c = elim (Option-cases (replace l c)) [
  | inl e ↦ elim (Bool-cases (ltb (length l) 8)) [
    | inl room ↦ inr (inl (e, ground arith, ground arith))
    | inr full ↦ inl (ground arith)
  ]
  | inr (l', e) ↦ inr (inr (l', e, ground arith))
]

put_cred-IsList : (l : List Cred) (c : Cred) → IsCred c → IsList l → IsList (put_cred l c).0
put_cred-IsList l c n k = elim (put_cred_cases l c) [
  | inl same ↦ subst IsList (sym same) k
  | inr (inl (e, room, at)) ↦ subst IsList (sym at) (put_new-IsList l c e n k room)
  | inr (inr (l', e, at)) ↦ subst IsList (sym at) (put_over-IsList l c l' e n k)
]

list_add-IsList :
    (l : List Cred) (ssid : List ℕ) (pass : Option (List ℕ))
    → IsList l
    → IsList (list_add l ssid pass).0
unfolding list_add
list_add-IsList l ssid pass k =
    elim (Bool-cases (length ssid == 0 || ltb 32 (length ssid) || ltb 64 (length (pass_of pass)))) [
      | inl bad ↦ subst (λ r. IsList r) (sym (ground arith)) k
      | inr good ↦
          subst (λ r. IsList r) (sym (ground arith))
            (put_cred-IsList l (record { ssid = ssid; pass = pass_of pass }) (ground arith) k)
    ]

list_remove-IsList :
    (l : List Cred) (i : ℕ) (current : List ℕ) (connected : Bool)
    → IsList l
    → IsList (list_remove l i current connected).0
unfolding list_remove
list_remove-IsList l i current connected k = elim (Bool-cases (ltb i (length l))) [
  | inl in_range ↦
      subst (λ r. IsList r) (sym (ground arith))
        (record {
          creds = remove_at-All IsCred l i k.creds;
          distinct = remove_at-Distinct l i k.distinct;
          fits = omega (arith, k.fits, length-remove_at l i);
        })
  | inr out_of_range ↦ subst (λ r. IsList r) (sym (ground arith)) k
]

change-IsList : (l : List Cred) (c : Change) → IsList l → IsList (change l c)
unfolding change
change-IsList l (add ssid pass) k = list_add-IsList l ssid pass k
change-IsList l (remove i current connected) k = list_remove-IsList l i current connected k
change-IsList l clear k = record { creds = tt; distinct = tt; fits = omega arith }

-- Whatever networks are added, removed and cleared, the saved list keeps at most eight entries,
-- each with an SSID of 1 to 32 bytes and a password of at most 64, and no SSID stands twice.
pub changes-IsList : (cs : List Change) (l : List Cred) → IsList l → IsList (changes l cs)
unfolding changes
changes-IsList [] l k = k
changes-IsList (c ∷ cs) l k = changes-IsList cs (change l c) (change-IsList l c k)
