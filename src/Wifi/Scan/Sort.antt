-- ===== src/Wifi/Scan/Sort.antt =====
-- The candidates of main/wifi_multi.c are tried in the order of their signals.
use vetera_bridge.Prelude.{
  ℕ, suc, ◌+◌, ◌≤◌, ◌≡◌, refl, ap, ◌∙◌, inl, inr, true, false, not, ◌||◌, Option, none, some, List,
  [], ◌∷◌, arith, ltb, if◌then◌else◌, Bool-cases, length, All, bytes_eq, bytes_eq→eq, bytes_eq_sym,
  bytes_eq_refl,
}
use vetera_bridge.Wifi.Scan.{Candidate, stops_in, insert, sort_onto}

abbrev pub IsSorted : List Candidate → Type 0
IsSorted [] = Unit
IsSorted (c ∷ cs) = All (λ (d : Candidate). d.rssi ≤ c.rssi) cs × IsSorted cs

-- The signal that the list has for an SSID.
unfoldable pub rssi_of : List Candidate → List ℕ → Option ℕ
rssi_of [] s = none
rssi_of (c ∷ cs) s = if bytes_eq c.cred.ssid s then some c.rssi else rssi_of cs s

insert-All :
    (P : Candidate → Type 0) (cs : List Candidate) (c : Candidate)
    → P c
    → All P cs
    → All P (insert cs c)
unfolding insert
insert-All P [] c n k = (n, tt)
insert-All P (x ∷ xs) c n k = elim (Bool-cases (stops_in xs c.rssi || not (ltb x.rssi c.rssi))) [
  | inl e ↦ rw e (k.0, insert-All P xs c n k.1)
  | inr e ↦ rw e (n, k)
]

weaker : (cs : List Candidate) (r : ℕ) → stops_in cs r ≡ false → All (λ d. d.rssi ≤ r) cs
unfolding stops_in
weaker [] r h = tt
weaker (c ∷ cs) r h = (ground arith, weaker cs r (ground arith))

stops-IsSorted :
    (cs : List Candidate) (x : Candidate) (r : ℕ)
    → All (λ d. d.rssi ≤ x.rssi) cs
    → stops_in cs r ≡ true
    → r ≤ x.rssi
unfolding stops_in
stops-IsSorted [] x r k h = absurd (ground arith)
stops-IsSorted (c ∷ cs) x r k h = elim (Bool-cases (stops_in cs r)) [
  | inl e ↦ stops-IsSorted cs x r k.1 e
  | inr e ↦ ground (arith, k.0)
]

behind_stop :
    (xs : List Candidate) (x : Candidate) (r : ℕ)
    → All (λ d. d.rssi ≤ x.rssi) xs
    → (stops_in xs r || not (ltb x.rssi r)) ≡ true
    → r ≤ x.rssi
behind_stop xs x r k h = elim (Bool-cases (stops_in xs r)) [
  | inl e ↦ stops-IsSorted xs x r k e
  | inr e ↦ ground arith
]

insert-IsSorted : (cs : List Candidate) (c : Candidate) → IsSorted cs → IsSorted (insert cs c)
unfolding insert
insert-IsSorted [] c k = (tt, tt)
insert-IsSorted (x ∷ xs) c k = elim (Bool-cases (stops_in xs c.rssi || not (ltb x.rssi c.rssi))) [
  | inl e ↦ rw e (
    insert-All (λ d. d.rssi ≤ x.rssi) xs c (behind_stop xs x c.rssi k.0 e) k.0,
    insert-IsSorted xs c k.1,
  )
  | inr e ↦ rw e ((ground arith, weaker xs c.rssi (ground arith)), k)
]

-- The list has no other candidate of the SSID.
insert-rssi_of :
    (cs : List Candidate) (c : Candidate) (s : List ℕ)
    → rssi_of cs c.cred.ssid ≡ none
    → rssi_of (insert cs c) s ≡ (if bytes_eq c.cred.ssid s then some c.rssi else rssi_of cs s)
unfolding insert rssi_of
insert-rssi_of [] c s h = refl
insert-rssi_of (x ∷ xs) c s h = elim (Bool-cases (bytes_eq x.cred.ssid c.cred.ssid)) [
  | inl same ↦ absurd (ground arith)
  | inr other ↦
      let ih = insert-rssi_of xs c s (ground arith) in
      elim (Bool-cases (bytes_eq c.cred.ssid s)) [
        | inl at ↦ ground (arith, ih, ap (bytes_eq x.cred.ssid) (bytes_eq→eq c.cred.ssid s at))
        | inr away ↦ ground (arith, ih)
      ]
]

abbrev pub IsDistinct : List Candidate → Type 0
IsDistinct [] = Unit
IsDistinct (c ∷ cs) = (rssi_of cs c.cred.ssid ≡ none) × IsDistinct cs

abbrev pub Apart : List Candidate → List Candidate → Type 0
Apart done cs = All (λ (d : Candidate). rssi_of done d.cred.ssid ≡ none) cs

abbrev or_else : Option ℕ → Option ℕ → Option ℕ
or_else none o = o
or_else (some r) o = some r

insert-Apart :
    (done cs : List Candidate) (c : Candidate)
    → rssi_of done c.cred.ssid ≡ none
    → rssi_of cs c.cred.ssid ≡ none
    → Apart done cs
    → Apart (insert done c) cs
unfolding rssi_of
insert-Apart done [] c h n k = tt
insert-Apart done (d ∷ ds) c h n k = elim (Bool-cases (bytes_eq d.cred.ssid c.cred.ssid)) [
  | inl same ↦ absurd (ground arith)
  | inr other ↦ elim (Bool-cases (bytes_eq c.cred.ssid d.cred.ssid)) [
    | inl same ↦ absurd (
        ground (
          arith,
          ap (bytes_eq d.cred.ssid) (bytes_eq→eq c.cred.ssid d.cred.ssid same),
          bytes_eq_refl d.cred.ssid,
        ))
    | inr away ↦ (
      insert-rssi_of done c d.cred.ssid h ∙ ground (arith, k.0),
      insert-Apart done ds c h (ground arith) k.1,
    )
  ]
]

sort_onto-rssi_of :
    (done cs : List Candidate) (s : List ℕ)
    → Apart done cs
    → IsDistinct cs
    → rssi_of (sort_onto done cs) s ≡ or_else (rssi_of cs s) (rssi_of done s)
unfolding sort_onto rssi_of
sort_onto-rssi_of done [] s a k = refl
sort_onto-rssi_of done (c ∷ cs) s a k =
    let ih = sort_onto-rssi_of (insert done c) cs s (insert-Apart done cs c a.0 k.0 a.1) k.1 in
    let put = insert-rssi_of done c s a.0 in
    elim (Bool-cases (bytes_eq c.cred.ssid s)) [
      | inl at ↦ ground (arith, ih, put, ap (rssi_of cs) (bytes_eq→eq c.cred.ssid s at), k.0)
      | inr away ↦ ground (arith, ih, put)
    ]

pub sort_onto-All :
    (P : Candidate → Type 0) (done cs : List Candidate)
    → All P done
    → All P cs
    → All P (sort_onto done cs)
unfolding sort_onto
sort_onto-All P done [] a k = a
sort_onto-All P done (c ∷ cs) a k =
    sort_onto-All P (insert done c) cs (insert-All P done c k.0 a) k.1

pub sort_onto-IsSorted : (done cs : List Candidate) → IsSorted done → IsSorted (sort_onto done cs)
unfolding sort_onto
sort_onto-IsSorted done [] a = a
sort_onto-IsSorted done (c ∷ cs) a =
    sort_onto-IsSorted (insert done c) cs (insert-IsSorted done c a)

pub none-Apart : (cs : List Candidate) → Apart [] cs
unfolding rssi_of
none-Apart [] = tt
none-Apart (c ∷ cs) = (refl, none-Apart cs)

-- Sorting keeps the signal of each SSID, where no SSID stands twice.
pub sort-rssi_of :
    (cs : List Candidate) (s : List ℕ) → IsDistinct cs → rssi_of (sort_onto [] cs) s ≡ rssi_of cs s
unfolding rssi_of
sort-rssi_of cs s k = sort_onto-rssi_of [] cs s (none-Apart cs) k ∙ whole (rssi_of cs s)
  where
    whole : (o : Option ℕ) → or_else o none ≡ o
    whole none = refl
    whole (some r) = refl

length-insert : (cs : List Candidate) (c : Candidate) → length (insert cs c) ≡ suc (length cs)
unfolding insert
length-insert [] c = refl
length-insert (x ∷ xs) c = ground (arith, length-insert xs c)

pub length-sort_onto :
    (done cs : List Candidate) → length (sort_onto done cs) ≡ length done + length cs
unfolding sort_onto
length-sort_onto done [] = omega arith
length-sort_onto done (c ∷ cs) =
    omega (arith, length-sort_onto (insert done c) cs, length-insert done c)

insert-IsDistinct :
    (cs : List Candidate) (c : Candidate)
    → rssi_of cs c.cred.ssid ≡ none
    → IsDistinct cs
    → IsDistinct (insert cs c)
unfolding insert rssi_of
insert-IsDistinct [] c h k = (refl, tt)
insert-IsDistinct (x ∷ xs) c h k = elim (Bool-cases (bytes_eq x.cred.ssid c.cred.ssid)) [
  | inl same ↦ absurd (ground arith)
  | inr other ↦
      let rest : rssi_of xs c.cred.ssid ≡ none = ground arith in
      elim (Bool-cases (stops_in xs c.rssi || not (ltb x.rssi c.rssi))) [
        | inl e ↦ rw e (
          insert-rssi_of xs c x.cred.ssid rest
              ∙ ground (arith, k.0, bytes_eq_sym x.cred.ssid c.cred.ssid),
          insert-IsDistinct xs c rest k.1,
        )
        | inr e ↦ rw e (h, k)
      ]
]

pub sort_onto-IsDistinct :
    (done cs : List Candidate)
    → Apart done cs
    → IsDistinct done
    → IsDistinct cs
    → IsDistinct (sort_onto done cs)
unfolding sort_onto
sort_onto-IsDistinct done [] a d k = d
sort_onto-IsDistinct done (c ∷ cs) a d k =
    sort_onto-IsDistinct (insert done c) cs (insert-Apart done cs c a.0 k.0 a.1)
      (insert-IsDistinct done c a.0 d) k.1
