-- ===== src/Proxy/Flow/Slot.antt =====
-- Which flow of the table of main/http_proxy.c gives way to a new one.
use mathlib.Core.Option.{some-injective}
use vetera_bridge.Prelude.{
  ℕ, suc, ◌+◌, ◌<◌, ◌≡◌, refl, ap, ◌∙◌, subst, ◌⊎◌, inl, inr, Bool, true, false, not, ◌&&◌, none,
  some, List, [], ◌∷◌, arith, ltb, if◌then◌else◌, Bool-cases, get_elem?, sub32,
}
use vetera_bridge.Proxy.Flow.{
  idle_ms, free, active, closed, Flow, is_free, is_closed, Candidate, older, choose, flow_slot_from,
  flow_slot,
}

-- A flow that a new one may replace at a moment: free, closed, or idle for more than two minutes.
abbrev pub IsEvictable : ℕ → Flow → Type 0
IsEvictable now f =
    (f.state ≡ free) ⊎ ((f.state ≡ closed) ⊎ ((f.state ≡ active) × (120000 < sub32 now f.stamp_ms)))

module _ (whole : List Flow) (now : ℕ) where
  abbrev Evictable : ℕ → Type 0
  Evictable i = (f : Flow) × (get_elem? whole i ≡ some f) × IsEvictable now f

  IsCandidate : Candidate → Type 0
  IsCandidate none = Unit
  IsCandidate (some (i, age)) = Evictable i

  older-IsCandidate :
      (k age : ℕ) (c : Candidate) → IsCandidate c → Evictable k → IsCandidate (older k age c)
  unfolding IsCandidate
  older-IsCandidate k age none h e = e
  older-IsCandidate k age (some (j, best)) h e = elim (Bool-cases (ltb best age)) [
    | inl t ↦ rw t e
    | inr f ↦ rw f h
  ]

  if-IsCandidate :
      (b : Bool) (k age : ℕ) (c : Candidate)
      → IsCandidate c
      → (b ≡ true → Evictable k)
      → IsCandidate (if b then older k age c else c)
  if-IsCandidate true k age c h e = older-IsCandidate k age c h (e refl)
  if-IsCandidate false k age c h e = h

  choose_lem :
      (i : ℕ) (a b : Candidate) → IsCandidate a → IsCandidate b → choose a b ≡ some i → Evictable i
  unfolding IsCandidate
  choose_lem i none none h l e = cc
  choose_lem i none (some (x, y)) h l e = subst Evictable (some-injective _ _ e) l
  choose_lem i (some (x, y)) b h l e = subst Evictable (some-injective _ _ e) h

  -- The rest of the table, from index `k` on.
  abbrev IsRest : List Flow → ℕ → Type 0
  IsRest fs k = (j : ℕ) (f : Flow) → get_elem? fs j ≡ some f → get_elem? whole (k + j) ≡ some f

  flow_slot_from_lem :
      (fs : List Flow) (k : ℕ) (a b : Candidate) (i : ℕ)
      → IsRest fs k
      → IsCandidate a
      → IsCandidate b
      → flow_slot_from k fs now a b ≡ some i
      → Evictable i
  unfolding flow_slot_from
  flow_slot_from_lem [] k a b i r h l e = choose_lem i a b h l e
  flow_slot_from_lem (f ∷ fs) k a b i r h l e =
      let at : get_elem? whole k ≡ some f = ap (get_elem? whole) (omega arith) ∙ r 0 f refl in
      elim (Bool-cases (is_free f.state)) [
        | inl t ↦
            let same : k ≡ i = some-injective _ _ (rw t at e) in
            subst Evictable same (f, at, ground arith)
        | inr n ↦
            let age = sub32 now f.stamp_ms in
            flow_slot_from_lem fs (suc k) _ _ i
              (λ j g hj. ap (get_elem? whole) (omega arith) ∙ r (suc j) g hj)
              (if-IsCandidate (is_closed f.state) k age a h (λ c. (f, at, ground arith)))
              (if-IsCandidate (not (is_closed f.state) && ltb idle_ms age) k age b l
                (λ c. (f, at, ground arith)))
              (rw n at e)
      ]

-- Where there is a slot for it, a new flow replaces a free flow, a closed one, or one idle for more
-- than two minutes, and never a live connection that was used since; the slot lies in the table.
pub flow_slot_evicts :
    (fs : List Flow) (now i : ℕ)
    → flow_slot fs now ≡ some i
    → (f : Flow) × (get_elem? fs i ≡ some f) × IsEvictable now f
unfolding flow_slot
flow_slot_evicts fs now i e =
    flow_slot_from_lem fs now fs 0 none none i (λ j f h. ap (get_elem? fs) (omega arith) ∙ h)
      (unfold IsCandidate in tt) (unfold IsCandidate in tt) e
