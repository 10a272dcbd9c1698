-- ===== src/Wifi/Scan/Collect.antt =====
-- Which candidates main/wifi_multi.c collects from a scan.
use mathlib.Core.Option.{none-ne-some}
use vetera_bridge.Prelude.{
  ℕ, suc, ◌+◌, ◌≤◌, ◌≡◌, refl, sym, ap, ◌∙◌, subst, inl, inr, true, ◌&&◌, none, some, List, [], ◌∷◌,
  ◌++◌, arith, ltb, if◌then◌else◌, lt→ltb, Bool-cases, Option-cases, length, All, length-append,
  bytes_eq, bytes_eq→eq, bytes_eq_sym, bytes_eq_refl,
}
use vetera_bridge.Wifi.Saved.{Cred}
use vetera_bridge.Wifi.Scan.{
  Seen, Candidate, find_saved, keep_better, add_candidate, take_seen, collect, scan_candidates,
}
use vetera_bridge.Wifi.Scan.Sort.{
  IsSorted, rssi_of, IsDistinct, sort_onto-All, sort_onto-IsSorted, none-Apart, sort-rssi_of,
  length-sort_onto, sort_onto-IsDistinct,
}
use vetera_bridge.Wifi.Scan.Better.{
  higher, best_onto, is_known, lacks, missing, Good, find_saved-ssid, keep_better_lem,
  keep_better-none, keep_better-All, keep_better-IsDistinct,
}

missing-le :
    (saved : List Cred) (cs cs' : List Candidate)
    → ((s : List ℕ) → lacks (rssi_of cs' s) ≤ lacks (rssi_of cs s))
    → missing saved cs' ≤ missing saved cs
missing-le [] cs cs' h = omega arith
missing-le (d ∷ ds) cs cs' h = omega (arith, h d.ssid, missing-le ds cs cs' h)

missing-lt :
    (saved : List Cred) (cs cs' : List Candidate) (s : List ℕ) (d : Cred)
    → find_saved saved s ≡ some d
    → ((s : List ℕ) → lacks (rssi_of cs' s) ≤ lacks (rssi_of cs s))
    → lacks (rssi_of cs' s) ≡ 0
    → lacks (rssi_of cs s) ≡ 1
    → suc (missing saved cs') ≤ missing saved cs
unfolding find_saved
missing-lt [] cs cs' s d f h z o = absurd (none-ne-some _ f)
missing-lt (e ∷ es) cs cs' s d f h z o = elim (Bool-cases (bytes_eq s e.ssid)) [
  | inl at ↦
      let same = bytes_eq→eq s e.ssid at in
      omega (arith, missing-le es cs cs' h, rw same at z, rw same at o)
  | inr away ↦ omega (arith, h e.ssid, missing-lt es cs cs' s d (ground arith) h z o)
]

-- A new candidate at the end.
snoc-rssi_of :
    (cs : List Candidate) (c : Candidate) (s : List ℕ)
    → rssi_of cs c.cred.ssid ≡ none
    → rssi_of (cs ++ (c ∷ [])) s ≡ (if bytes_eq c.cred.ssid s then some c.rssi else rssi_of cs s)
unfolding rssi_of
snoc-rssi_of [] c s h = refl
snoc-rssi_of (x ∷ xs) c s h = elim (Bool-cases (bytes_eq x.cred.ssid c.cred.ssid)) [
  | inl same ↦ absurd (ground arith)
  | inr other ↦
      let ih = snoc-rssi_of xs c s (ground arith) in
      elim (Bool-cases (bytes_eq c.cred.ssid s)) [
        | inl at ↦ ground (arith, ih, ap (bytes_eq x.cred.ssid) (bytes_eq→eq c.cred.ssid s at))
        | inr away ↦ ground (arith, ih)
      ]
]

snoc-IsDistinct :
    (cs : List Candidate) (c : Candidate)
    → rssi_of cs c.cred.ssid ≡ none
    → IsDistinct cs
    → IsDistinct (cs ++ (c ∷ []))
unfolding rssi_of
snoc-IsDistinct [] c h k = (refl, tt)
snoc-IsDistinct (x ∷ xs) c h k = elim (Bool-cases (bytes_eq x.cred.ssid c.cred.ssid)) [
  | inl same ↦ absurd (ground arith)
  | inr other ↦
      let rest : rssi_of xs c.cred.ssid ≡ none = ground arith in
      (
        snoc-rssi_of xs c x.cred.ssid rest
            ∙ ground (arith, k.0, bytes_eq_sym x.cred.ssid c.cred.ssid),
        snoc-IsDistinct xs c rest k.1,
      )
]

snoc-All :
    (P : Candidate → Type 0) (cs : List Candidate) (c : Candidate)
    → All P cs
    → P c
    → All P (cs ++ (c ∷ []))
snoc-All P [] c k n = (n, tt)
snoc-All P (x ∷ xs) c k n = (k.0, snoc-All P xs c k.1 n)

-- What one access point changes in the signals, and that the list stays good.
abbrev Takes : List Cred → List Candidate → Seen → List Candidate → Type 0
Takes saved cs x cs' =
    Good saved cs'
    × ((s : List ℕ)
        → rssi_of cs' s ≡ (
            if bytes_eq x.ssid s && is_known saved x.ssid
            then higher (rssi_of cs s) x.rssi
            else rssi_of cs s))

better-Takes :
    (saved : List Cred) (cs : List Candidate) (x : Seen) (d : Cred) (cs' : List Candidate)
    → Good saved cs
    → find_saved saved x.ssid ≡ some d
    → keep_better cs x.ssid x.rssi ≡ some cs'
    → Takes saved cs x cs'
better-Takes saved cs x d cs' g f e =
    let signal = λ (s : List ℕ). (keep_better_lem cs x.ssid x.rssi cs' s e).0 in
    (
      record {
        distinct = keep_better-IsDistinct cs x.ssid x.rssi cs' e g.distinct;
        from_saved =
            keep_better-All (λ c. find_saved saved c.ssid ≡ some c) cs x.ssid x.rssi cs' e
              g.from_saved;
        counted = omega (
          arith,
          g.counted,
          (keep_better_lem cs x.ssid x.rssi cs' [] e).1,
          missing-le saved cs cs' (λ s. ground (arith, signal s)),
        );
      },
      λ s. ground (arith, signal s, f),
    )

-- There is room for a saved network that is no candidate yet.
room_for_new :
    (saved : List Cred) (cs : List Candidate) (c : Candidate)
    → Good saved cs
    → find_saved saved c.cred.ssid ≡ some c.cred
    → rssi_of cs c.cred.ssid ≡ none
    → suc (length cs) + missing saved (cs ++ (c ∷ [])) ≤ length saved
room_for_new saved cs c g f n =
    let signal = λ (s : List ℕ). snoc-rssi_of cs c s n in
    let less =
      missing-lt saved cs (cs ++ (c ∷ [])) c.cred.ssid c.cred f (λ s. ground (arith, signal s))
        (ground (arith, signal c.cred.ssid, bytes_eq_refl c.cred.ssid)) (ground (arith, n)) in
    omega (arith, less, g.counted)

new-Good :
    (saved : List Cred) (cs : List Candidate) (c : Candidate)
    → Good saved cs
    → find_saved saved c.cred.ssid ≡ some c.cred
    → rssi_of cs c.cred.ssid ≡ none
    → Good saved (cs ++ (c ∷ []))
new-Good saved cs c g f n = record {
  distinct = snoc-IsDistinct cs c n g.distinct;
  from_saved = snoc-All (λ c. find_saved saved c.cred.ssid ≡ some c.cred) cs c g.from_saved f;
  counted = omega (arith, room_for_new saved cs c g f n, length-append cs (c ∷ []));
}

new-Takes :
    (saved : List Cred) (cs : List Candidate) (x : Seen) (d : Cred)
    → length saved ≤ 8
    → Good saved cs
    → find_saved saved x.ssid ≡ some d
    → keep_better cs x.ssid x.rssi ≡ none
    → Takes saved cs x (add_candidate cs d x.rssi)
unfolding add_candidate
new-Takes saved cs x d fits g f e =
    let c : Candidate = record { cred = d; rssi = x.rssi } in
    let ssid = find_saved-ssid saved x.ssid d f in
    let known = rw ssid at f in
    let n = rw ssid at (keep_better-none cs x.ssid x.rssi e) in
    let room : ltb (length cs) 8 ≡ true =
      lt→ltb (length cs) 8 (omega (arith, fits, room_for_new saved cs c g known n)) in
    rw room (
      new-Good saved cs c g known n,
      (λ s. ground (
        arith,
        snoc-rssi_of cs c s n,
        ssid,
        f,
        n,
        ap (λ y. bytes_eq y s) ssid,
        (λ (h : bytes_eq d.ssid s ≡ true). ap (rssi_of cs) (bytes_eq→eq d.ssid s h)),
      )),
    )

take_seen-Takes :
    (saved : List Cred) (cs : List Candidate) (x : Seen)
    → length saved ≤ 8
    → Good saved cs
    → Takes saved cs x (take_seen saved cs x)
unfolding take_seen
take_seen-Takes saved cs x fits g = elim (Option-cases (find_saved saved x.ssid)) [
  | inl f ↦
      let same : take_seen saved cs x ≡ cs = ground arith in
      subst (Takes saved cs x) (sym same) (g, (λ s. ground arith))
  | inr (d, f) ↦ elim (Option-cases (keep_better cs x.ssid x.rssi)) [
    | inl e ↦
        let same : take_seen saved cs x ≡ add_candidate cs d x.rssi = ground arith in
        subst (Takes saved cs x) (sym same) (new-Takes saved cs x d fits g f e)
    | inr (cs', e) ↦
        let same : take_seen saved cs x ≡ cs' = ground arith in
        subst (Takes saved cs x) (sym same) (better-Takes saved cs x d cs' g f e)
  ]
]

collect_lem :
    (saved : List Cred) (cs : List Candidate) (xs : List Seen)
    → length saved ≤ 8
    → Good saved cs
    → Good saved (collect saved cs xs)
      × ((s : List ℕ)
          → rssi_of (collect saved cs xs) s
            ≡ (if is_known saved s then best_onto (rssi_of cs s) xs s else rssi_of cs s))
unfolding collect best_onto
collect_lem saved cs [] fits g = (g, (λ s. ground arith))
collect_lem saved cs (x ∷ xs) fits g =
    let (good, signal) = take_seen-Takes saved cs x fits g in
    let (good', signals) = collect_lem saved (take_seen saved cs x) xs fits good in
    (
      good',
      (λ s. elim (Bool-cases (bytes_eq x.ssid s)) [
        | inl at ↦
            ground (arith, signal s, signals s, ap (is_known saved) (bytes_eq→eq x.ssid s at))
        | inr away ↦ ground (arith, signal s, signals s)
      ]),
    )

missing_none : (saved : List Cred) → missing saved [] ≤ length saved
unfolding rssi_of
missing_none [] = omega arith
missing_none (d ∷ ds) = omega (arith, missing_none ds)

-- The candidates of a scan, for a list of at most eight saved networks, are in the order of their
-- signals, the strongest first. They are exactly the saved networks that the scan saw, each with
-- the strongest of the signals that it was seen with and with the saved password, and each stands
-- once, so that they fit the array.
pub scan_candidates_lem :
    (saved : List Cred) (xs : List Seen)
    → length saved ≤ 8
    → IsSorted (scan_candidates saved xs)
      × All (λ c. find_saved saved c.cred.ssid ≡ some c.cred) (scan_candidates saved xs)
      × ((s : List ℕ)
          → rssi_of (scan_candidates saved xs) s
            ≡ (if is_known saved s then best_onto none xs s else none))
      × IsDistinct (scan_candidates saved xs)
      × (length (scan_candidates saved xs) ≤ length saved)
unfolding scan_candidates rssi_of
scan_candidates_lem saved xs fits =
    let start : Good saved [] = record {
      distinct = tt;
      from_saved = tt;
      counted = omega (arith, missing_none saved);
    } in
    let (good, signals) = collect_lem saved [] xs fits start in
    (
      sort_onto-IsSorted [] (collect saved [] xs) tt,
      sort_onto-All (λ c. find_saved saved c.cred.ssid ≡ some c.cred) [] (collect saved [] xs) tt
          good.from_saved,
      (λ s. sort-rssi_of (collect saved [] xs) s good.distinct ∙ signals s),
      sort_onto-IsDistinct [] (collect saved [] xs) (none-Apart (collect saved [] xs)) tt
          good.distinct,
      omega (arith, length-sort_onto [] (collect saved [] xs), good.counted),
    )
