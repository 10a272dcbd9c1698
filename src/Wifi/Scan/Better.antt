-- ===== src/Wifi/Scan/Better.antt =====
-- What a candidate list of main/wifi_multi.c has to keep, and what a better signal changes in it.
use mathlib.Core.Option.{some-injective, none-ne-some}
use vetera_bridge.Prelude.{
  ℕ, ◌+◌, ◌≤◌, ◌≡◌, refl, ap, ◌∙◌, inl, inr, Bool, true, false, Option, none, some, List, [], ◌∷◌,
  arith, ltb, if◌then◌else◌, Bool-cases, Option-cases, length, All, bytes_eq, bytes_eq→eq,
  bytes_eq_sym,
}
use vetera_bridge.Wifi.Saved.{Cred}
use vetera_bridge.Wifi.Scan.{Seen, Candidate, find_saved, keep_better}
use vetera_bridge.Wifi.Scan.Sort.{rssi_of, IsDistinct}

abbrev pub higher : Option ℕ → ℕ → Option ℕ
higher none r = some r
higher (some b) r = some (if ltb b r then r else b)

-- The strongest signal of an SSID in a scan, or what was known before.
unfoldable pub best_onto : Option ℕ → List Seen → List ℕ → Option ℕ
best_onto b [] s = b
best_onto b (x ∷ xs) s = best_onto (if bytes_eq x.ssid s then higher b x.rssi else b) xs s

abbrev pub is_known : List Cred → List ℕ → Bool
is_known saved s = elim (find_saved saved s) [ none ↦ false | some d ↦ true ]

abbrev pub lacks : Option ℕ → ℕ
lacks none = 1
lacks (some r) = 0

-- How many saved networks are no candidates yet.
abbrev pub missing : List Cred → List Candidate → ℕ
missing [] cs = 0
missing (d ∷ ds) cs = lacks (rssi_of cs d.ssid) + missing ds cs

pub record Good (saved : List Cred) (cs : List Candidate) : Type 0 where
  pub distinct : IsDistinct cs
  pub from_saved : All (λ (c : Candidate). find_saved saved c.cred.ssid ≡ some c.cred) cs
  pub counted : length cs + missing saved cs ≤ length saved

pub find_saved-ssid :
    (saved : List Cred) (s : List ℕ) (d : Cred) → find_saved saved s ≡ some d → s ≡ d.ssid
unfolding find_saved
find_saved-ssid [] s d h = absurd (none-ne-some _ h)
find_saved-ssid (e ∷ es) s d h = elim (Bool-cases (bytes_eq s e.ssid)) [
  | inl at ↦ bytes_eq→eq s e.ssid at ∙ ap (λ (x : Cred). x.ssid) (some-injective e d (ground arith))
  | inr away ↦ find_saved-ssid es s d (ground arith)
]

pub keep_better_lem :
    (cs : List Candidate) (s : List ℕ) (r : ℕ) (cs' : List Candidate) (s' : List ℕ)
    → keep_better cs s r ≡ some cs'
    → (rssi_of cs' s' ≡ (if bytes_eq s s' then higher (rssi_of cs s') r else rssi_of cs s'))
      × (length cs' ≡ length cs)
unfolding keep_better rssi_of
keep_better_lem [] s r cs' s' h = absurd (none-ne-some _ h)
keep_better_lem (c ∷ cs) s r cs' s' h = elim (Bool-cases (bytes_eq c.cred.ssid s)) [
  | inl at ↦ ground (arith, ap (λ x. bytes_eq x s') (bytes_eq→eq c.cred.ssid s at))
  | inr away ↦ elim (Option-cases (keep_better cs s r)) [
    | inl e ↦ absurd (ground arith)
    | inr (ds, e) ↦
        let ih = keep_better_lem cs s r ds s' e in
        elim (Bool-cases (bytes_eq s s')) [
          | inl same ↦ ground (arith, ih, ap (bytes_eq c.cred.ssid) (bytes_eq→eq s s' same))
          | inr other ↦ ground (arith, ih)
        ]
  ]
]

pub keep_better-none :
    (cs : List Candidate) (s : List ℕ) (r : ℕ) → keep_better cs s r ≡ none → rssi_of cs s ≡ none
unfolding keep_better rssi_of
keep_better-none [] s r h = refl
keep_better-none (c ∷ cs) s r h = elim (Bool-cases (bytes_eq c.cred.ssid s)) [
  | inl at ↦ absurd (ground arith)
  | inr away ↦ elim (Option-cases (keep_better cs s r)) [
    | inl e ↦ ground (arith, keep_better-none cs s r e)
    | inr (ds, e) ↦ absurd (ground arith)
  ]
]

-- The candidates keep their entries.
pub keep_better-All :
    (P : Cred → Type 0) (cs : List Candidate) (s : List ℕ) (r : ℕ) (cs' : List Candidate)
    → keep_better cs s r ≡ some cs'
    → All (λ (c : Candidate). P c.cred) cs
    → All (λ (c : Candidate). P c.cred) cs'
unfolding keep_better
keep_better-All P [] s r cs' h k = absurd (none-ne-some _ h)
keep_better-All P (c ∷ cs) s r cs' h k = elim (Bool-cases (bytes_eq c.cred.ssid s)) [
  | inl at ↦
      let c' = record c { rssi = if ltb c.rssi r then r else c.rssi } in
      let same : c' ∷ cs ≡ cs' = some-injective _ _ (ground arith) in rw (← same) k
  | inr away ↦ elim (Option-cases (keep_better cs s r)) [
    | inl e ↦ absurd (ground arith)
    | inr (ds, e) ↦
        let same : c ∷ ds ≡ cs' = some-injective _ _ (ground arith) in
        rw (← same) (k.0, keep_better-All P cs s r ds e k.1)
  ]
]

pub keep_better-IsDistinct :
    (cs : List Candidate) (s : List ℕ) (r : ℕ) (cs' : List Candidate)
    → keep_better cs s r ≡ some cs'
    → IsDistinct cs
    → IsDistinct cs'
unfolding keep_better
keep_better-IsDistinct [] s r cs' h k = absurd (none-ne-some _ h)
keep_better-IsDistinct (c ∷ cs) s r cs' h k = elim (Bool-cases (bytes_eq c.cred.ssid s)) [
  | inl at ↦
      let c' = record c { rssi = if ltb c.rssi r then r else c.rssi } in
      let same : c' ∷ cs ≡ cs' = some-injective _ _ (ground arith) in rw (← same) k
  | inr away ↦ elim (Option-cases (keep_better cs s r)) [
    | inl e ↦ absurd (ground arith)
    | inr (ds, e) ↦
        let same : c ∷ ds ≡ cs' = some-injective _ _ (ground arith) in
        let signal = (keep_better_lem cs s r ds c.cred.ssid e).0 in
        let apart : bytes_eq s c.cred.ssid ≡ false = bytes_eq_sym s c.cred.ssid ∙ away in
        rw (← same) (signal ∙ ground (arith, k.0), keep_better-IsDistinct cs s r ds e k.1)
  ]
]
