-- ===== src/Proxy/Flow/Table.antt =====
-- The invariant of the flow table of main/http_proxy.c: a phone port has one live flow at most.
use vetera_bridge.Prelude.{
  ℕ, zero, suc, ◌+◌, ◌≡◌, sym, ap, ap₂, ◌∙◌, subst, ◌≢◌, ◌⊎◌, inl, inr, Bool, true, false, not,
  ◌&&◌, none, some, List, [], ◌∷◌, arith, ◌==◌, Bool-cases, Option-cases, get_elem?, set,
  get_elem?-set_inv,
}
use mathlib.Core.Option.{some-injective, none-ne-some, some-ne-none}
use native.Mathlib.Decide.{ℕ_discrete}
use vetera_bridge.Proxy.Flow.{Flow, is_free, flow_find_from, flow_find}

abbrev pub IsLive : Flow → Type 0
IsLive f = is_free f.state ≡ false

-- No live flow but that at an index has the port.
abbrev pub NoOther : List Flow → ℕ → ℕ → Type 0
NoOther fs i port =
    (j : ℕ) (g : Flow) → get_elem? fs j ≡ some g → IsLive g → j ≢ i → g.phone_port ≢ port

abbrev pub NoFlow : List Flow → ℕ → Type 0
NoFlow fs port = (j : ℕ) (g : Flow) → get_elem? fs j ≡ some g → IsLive g → g.phone_port ≢ port

-- A live flow goes to the relay of its port, which is 80 or 443.
abbrev pub IsRouted : Flow → Type 0
IsRouted f =
    IsLive f
    → ((f.orig_port ≡ 80) × (f.relay_port ≡ 3080)) ⊎ ((f.orig_port ≡ 443) × (f.relay_port ≡ 3443))

pub record IsTable (fs : List Flow) : Type 0 where
  pub unique : (i : ℕ) (f : Flow) → get_elem? fs i ≡ some f → IsLive f → NoOther fs i f.phone_port
  pub routed : (i : ℕ) (f : Flow) → get_elem? fs i ≡ some f → IsRouted f

pub set-IsTable :
    (fs : List Flow) (i : ℕ) (v : Flow)
    → IsTable fs
    → IsRouted v
    → (IsLive v → NoOther fs i v.phone_port)
    → IsTable (set fs i v)
set-IsTable fs i v t r other = record {
  unique = λ j f hj lf k g hk lg ne e. elim (get_elem?-set_inv fs i j v hj) [
    | inl (ij, vf) ↦ elim (get_elem?-set_inv fs i k v hk) [
      | inl (ik, vg) ↦ ne (sym ik ∙ ij)
      | inr (nik, old) ↦
          other (rw vf lf) k g old lg (λ s. nik (sym s))
            (e ∙ ap (λ (x : Flow). x.phone_port) (sym vf))
    ]
    | inr (nij, oldf) ↦ elim (get_elem?-set_inv fs i k v hk) [
      | inl (ik, vg) ↦
          other (rw vg lg) j f oldf lf (λ s. nij (sym s))
            (sym e ∙ ap (λ (x : Flow). x.phone_port) (sym vg))
      | inr (nik, oldg) ↦ t.unique j f oldf lf k g oldg lg ne e
    ]
  ];
  routed = λ j f hj. elim (get_elem?-set_inv fs i j v hj) [
    | inl (ij, vf) ↦ subst IsRouted vf r
    | inr (nij, old) ↦ t.routed j f old
  ];
}

-- What `flow_find` finds is a live flow of the port.
pub record Found (fs : List Flow) (port i : ℕ) (f : Flow) : Type 0 where
  pub at : get_elem? fs i ≡ some f
  pub live : IsLive f
  pub of_port : f.phone_port ≡ port

abbrev takes : Flow → ℕ → Bool
takes f port = not (is_free f.state) && f.phone_port == port

flow_find_from_lem :
    (k : ℕ) (fs : List Flow) (port i : ℕ) (f : Flow)
    → flow_find_from k fs port ≡ some (i, f)
    → (j : ℕ) × (i ≡ k + j) × Found fs port j f
unfolding flow_find_from
flow_find_from_lem k [] port i f h = absurd (none-ne-some _ h)
flow_find_from_lem k (g ∷ fs) port i f h = elim (Bool-cases (takes g port)) [
  | inl t ↦
      let pair = some-injective _ _ (rw t at h) in
      (
        0,
        omega (arith, ap (λ (x : ℕ × Flow). x.0) pair),
        record {
          at = ap (λ (x : ℕ × Flow). some x.1) pair;
          live = subst IsLive (ap (λ (x : ℕ × Flow). x.1) pair) (ground arith);
          of_port = ap (λ (x : ℕ × Flow). x.1.phone_port) (sym pair) ∙ ground arith;
        },
      )
  | inr n ↦
      let (j, e, found) = flow_find_from_lem (suc k) fs port i f (rw n at h) in
      (suc j, omega arith, record { at = found.at; live = found.live; of_port = found.of_port })
]

not_taken :
    (f g : Flow) (port : ℕ) → f ≡ g → IsLive g → g.phone_port ≡ port → takes f port ≡ false → ⊥
not_taken f g port e l p n =
    let taken : takes g port ≡ true = ground arith in
    cc (subst (λ (x : Flow). takes x port ≡ false) e n, taken)

flow_find_from-none :
    (k : ℕ) (fs : List Flow) (port : ℕ) → flow_find_from k fs port ≡ none → NoFlow fs port
unfolding flow_find_from
flow_find_from-none k [] port h j g e l = absurd (none-ne-some _ e)
flow_find_from-none k (f ∷ fs) port h zero g e l = elim (Bool-cases (takes f port)) [
  | inl t ↦ absurd (some-ne-none _ (rw t at h))
  | inr n ↦ λ p. not_taken f g port (some-injective _ _ e) l p n
]
flow_find_from-none k (f ∷ fs) port h (suc j) g e l = elim (Bool-cases (takes f port)) [
  | inl t ↦ absurd (some-ne-none _ (rw t at h))
  | inr n ↦ flow_find_from-none (suc k) fs port (rw n at h) j g e l
]

pub flow_find_lem :
    (fs : List Flow) (port i : ℕ) (f : Flow) → flow_find fs port ≡ some (i, f) → Found fs port i f
unfolding flow_find
flow_find_lem fs port i f h =
    let (j, e, found) = flow_find_from_lem 0 fs port i f h in
    let same : j ≡ i = omega arith in subst (λ x. Found fs port x f) same found

pub flow_find-none : (fs : List Flow) (port : ℕ) → flow_find fs port ≡ none → NoFlow fs port
unfolding flow_find
flow_find-none fs port h = flow_find_from-none 0 fs port h

-- In a table, the live flow of a port is the one found.
pub flow_find_of :
    (fs : List Flow) (port i : ℕ) (f : Flow)
    → IsTable fs
    → Found fs port i f
    → flow_find fs port ≡ some (i, f)
flow_find_of fs port i f t found = elim (Option-cases (flow_find fs port)) [
  | inl n ↦ absurd (flow_find-none fs port n i f found.at found.live found.of_port)
  | inr (x, e) ↦ e ∙ ap some (agree x (flow_find_lem fs port x.0 x.1 e))
]
  where
    agree : (x : ℕ × Flow) → Found fs port x.0 x.1 → x ≡ (i, f)
    agree (j, g) other = elim (ℕ_discrete i j) [
      | yes ij ↦
          let same : f ≡ g = some-injective _ _ (sym found.at ∙ ap (get_elem? fs) ij ∙ other.at) in
          ap₂ (λ (a : ℕ) (b : Flow). (a, b)) (sym ij) (sym same)
      | no ne ↦ absurd (
          t.unique j g other.at other.live i f found.at found.live ne
            (found.of_port ∙ sym other.of_port))
    ]
