-- ===== src/Bootstrap/Once.antt =====
-- Which phones main/bt_bootstrap.c connects into, and how it leaves them.
use vetera_bridge.Prelude.{
  ℕ, ◌+◌, ◌≤◌, ◌<◌, ◌≡◌, refl, sym, ap, ◌∙◌, subst, ◌≢◌, ◌⊎◌, inl, inr, Bool, true, false, not,
  ◌&&◌, ◌||◌, List, [], ◌∷◌, ◌++◌, append-nil, append_assoc, arith, ltb, ◌==◌, if◌then◌else◌,
  ltb→lt, Bool-cases, length, length-append,
}
use vetera_bridge.Bootstrap.{
  max_done, idle, wait_start, Boot, Action, drops_acl, Link, has_addr, is_idle, boot_reset,
  on_opened, on_closed, on_service, class_done, on_complete, on_timer, on_pairing_complete, Event,
  paired, service, timer_due, closed, complete, opened, handle, at_boot,
}
use vetera_bridge.Bootstrap.Runs.{can_come}

-- No address twice.
abbrev pub Distinct : List ℕ → Type 0
Distinct [] = Unit
Distinct (a ∷ as') = (has_addr a as' ≡ false) × Distinct as'

-- The phone of a run that an event begins.
unfoldable pub begins : Link → Event → Boot → List ℕ
begins l e b =
    let b' = (handle l e b).0 in
    if is_idle b.state && not (is_idle b'.state) then b'.addr ∷ [] else []

unfoldable pub begun : List (Link × Event) → Boot → List ℕ
begun [] b = []
begun ((l, e) ∷ es) b = begins l e b ++ begun es (handle l e b).0

has_addr-append :
    (a : ℕ) (xs ys : List ℕ) → has_addr a (xs ++ ys) ≡ (has_addr a xs || has_addr a ys)
has_addr-append a [] ys = refl
has_addr-append a (x ∷ xs) ys = ground (arith, has_addr-append a xs ys)

Distinct-snoc :
    (xs : List ℕ) (a : ℕ) → Distinct xs → has_addr a xs ≡ false → Distinct (xs ++ (a ∷ []))
Distinct-snoc [] a d h = (refl, tt)
Distinct-snoc (x ∷ xs) a (n, d) h =
    (ground (arith, n, h, has_addr-append x xs (a ∷ [])), Distinct-snoc xs a d (ground (arith, h)))

-- With room in the list, the run that an event begins is for a new address, which is put down.
handle-begins :
    (l : Link) (e : Event) (b : Boot)
    → can_come b e ≡ true
    → length b.done < max_done
    → ((begins l e b ≡ []) × ((handle l e b).0.done ≡ b.done))
      ⊎ ((a : ℕ) × (begins l e b ≡ a ∷ [])
          × ((handle l e b).0.done ≡ b.done ++ (a ∷ []))
          × (has_addr a b.done ≡ false))
unfolding begins handle can_come boot_reset on_service on_timer on_complete class_done on_closed
    on_opened on_pairing_complete
handle-begins l (paired a) b c lt = elim (Bool-cases (is_idle b.state && not (has_addr a b.done))) [
  | inl e ↦ inr (a, ground (arith, e, lt), ground (arith, e, lt), ground (arith, e))
  | inr e ↦ inl (ground (arith, e), ground (arith, e))
]
handle-begins l (service ch) b c lt = inl (ground (arith, c), ground (arith, c))
handle-begins l timer_due b c lt = inl (ground (arith, c), ground (arith, c))
handle-begins l closed b c lt = inl (ground (arith, c), refl)
handle-begins l (complete status) b c lt = inl (ground (arith, c), ground (arith, c))
handle-begins l (opened status cid) b c lt = inl (ground (arith, c), ground (arith, c))

-- The events that come are ones that can.
abbrev pub Comes : Boot → List (Link × Event) → Type 0
Comes b [] = Unit
Comes b ((l, e) ∷ es) = (can_come b e ≡ true) × Comes (handle l e b).0 es

nil_of_length : (xs : List ℕ) → length xs ≡ 0 → xs ≡ []
nil_of_length [] h = refl
nil_of_length (x ∷ xs) h = absurd (omega arith)

begun-Distinct :
    (es : List (Link × Event)) (b : Boot)
    → Comes b es
    → Distinct b.done
    → length b.done + length (begun es b) ≤ max_done
    → Distinct (b.done ++ begun es b)
unfolding begun
begun-Distinct [] b c d h = rw (append-nil b.done) d
begun-Distinct ((l, e) ∷ es) b (c, cs) d h = elim (Bool-cases (ltb (length b.done) max_done)) [
  | inr full ↦
      let none_left = nil_of_length (begun ((l, e) ∷ es) b) (ground (arith, full, h)) in
      subst (λ xs. Distinct (b.done ++ xs)) (sym none_left) (rw (append-nil b.done) d)
  | inl room ↦
      let b' = (handle l e b).0 in
      let rest = begun es b' in
      let sizes = length-append (begins l e b) rest in
      elim (handle-begins l e b c (ltb→lt (length b.done) max_done room)) [
        | inl (nobody, same) ↦ rw nobody (
            subst (λ xs. Distinct (xs ++ rest)) same
              (begun-Distinct es b' cs (rw same d)
                (omega (arith, h, ap length same, ap length nobody, sizes))))
        | inr (a, one, more, fresh) ↦ rw one (
            subst Distinct (ap (λ xs. xs ++ rest) more ∙ append_assoc b.done (a ∷ []) rest) (
              begun-Distinct es b' cs (rw more (Distinct-snoc b.done a d fresh)) (
                omega
                  (arith, h, ap length more, ap length one, length-append b.done (a ∷ []), sizes))))
      ]
]

-- Whatever happens from the start of the bridge on, the first sixteen runs are for different phones: a
-- phone that was tried is not tried again. BTstack's events come when they can.
pub runs_go_to_new_phones :
    (es : List (Link × Event))
    → Comes at_boot es
    → length (begun es at_boot) ≤ max_done
    → Distinct (begun es at_boot)
unfolding at_boot
runs_go_to_new_phones es c h = begun-Distinct es at_boot c tt (omega (arith, h))

-- Once the list is full, a phone that is not in it is tried each time that it pairs.
full_list_forgets :
    (l : Link) (a : ℕ) (b : Boot)
    → b.state ≡ idle
    → max_done ≤ length b.done
    → has_addr a b.done ≡ false
    → (begins l (paired a) b ≡ a ∷ []) × (has_addr a (handle l (paired a) b).0.done ≡ false)
unfolding begins handle on_pairing_complete
full_list_forgets l a b i full new = (ground (arith, i, full, new), ground (arith, i, full, new))

unfoldable pub has_drop : ℕ → List Action → Bool
has_drop a [] = false
has_drop a (drops_acl b ∷ acts) = b == a || has_drop a acts
has_drop a (_ ∷ acts) = has_drop a acts

-- However a run ends, the bridge drops the baseband link to the phone, if there is one; only a run that
-- is skipped since a session is open leaves it alone, and that run has asked the phone nothing.
pub end_drops_acl :
    (l : Link) (e : Event) (b : Boot)
    → b.state ≢ idle
    → (handle l e b).0.state ≡ idle
    → (has_drop b.addr (handle l e b).1 ≡ l.has_acl)
      ⊎ ((b.state ≡ wait_start) × (l.bt_connected ≡ true) × ((handle l e b).1 ≡ []))
unfolding handle boot_reset on_service on_timer on_complete class_done on_closed on_opened
    on_pairing_complete has_drop
end_drops_acl l (paired a) b n i = inl (ground (arith, n, i))
end_drops_acl l (service ch) b n i = inl (ground (arith, n, i))
end_drops_acl l timer_due b n i = elim (Bool-cases l.bt_connected) [
  | inl c ↦ inr (ground (arith, n, i, c), c, ground (arith, n, i, c))
  | inr c ↦ inl (ground (arith, n, i, c))
]
end_drops_acl l closed b n i = inl (ground arith)
end_drops_acl l (complete status) b n i = inl (ground (arith, n, i))
end_drops_acl l (opened status cid) b n i = inl (ground (arith, n, i))
