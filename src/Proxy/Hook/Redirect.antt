-- ===== src/Proxy/Hook/Redirect.antt =====
-- The redirect of main/http_proxy.c: the table stays a table, and a reply undoes what the hook did.
use mathlib.Core.Option.{some-injective, none-ne-some}
use vetera_bridge.Prelude.{
  ℕ, ◌<◌, ◌≡◌, refl, sym, ap, ◌∙◌, subst, ◌⊎◌, inl, inr, Bool, true, false, not, ◌&&◌, ◌||◌, Option,
  none, some, List, arith, if◌then◌else◌, length, get_elem?, set, get_elem?-set_inv,
  get_elem?-set_self, lt_of_get_elem?,
}
use vetera_bridge.Proxy.Flow.{free, Flow, is_closed, flow_find, flow_slot}
use vetera_bridge.Proxy.Flow.Table.{
  IsLive, NoOther, NoFlow, IsRouted, IsTable, set-IsTable, Found, flow_find_lem, flow_find-none,
}
use vetera_bridge.Proxy.Flow.Slot.{flow_slot_evicts}
use vetera_bridge.Proxy.Hook.{
  relay_for, Matched, is_same, flow_made, flow_put, flow_new, flow_match,
}

-- A live flow that stands for a connection of the phone.
pub record Carries (fs : List Flow) (i sport dport dst now : ℕ) : Type 0 where
  pub flow : Flow
  pub at : get_elem? fs i ≡ some flow
  pub live : IsLive flow
  pub of_port : flow.phone_port ≡ sport
  pub orig_ip : flow.orig_ip ≡ dst
  pub orig_port : flow.orig_port ≡ dport
  pub relay : flow.relay_port ≡ relay_for dport
  pub stamp : flow.stamp_ms ≡ now

-- What the critical section of the hook leaves: a table, and the connection's flow if it matched.
abbrev pub Kept : Matched → ℕ → ℕ → ℕ → ℕ → Type 0
Kept m sport dport dst now =
    IsTable m.0 × ((i : ℕ) → m.1 ≡ some i → Carries m.0 i sport dport dst now)

IsTable-freed :
    (fs : List Flow) (i : ℕ) (f : Flow)
    → IsTable fs
    → IsTable (set fs i (record f { state = free }))
IsTable-freed fs i f t = set-IsTable fs i _ t (λ l. cc) (λ l. cc)

NoFlow-freed :
    (fs : List Flow) (i port : ℕ) (f : Flow)
    → IsTable fs
    → Found fs port i f
    → NoFlow (set fs i (record f { state = free })) port
NoFlow-freed fs i port f t found j g e l p = elim (get_elem?-set_inv fs i j _ e) [
  | inl (ij, same) ↦ cc (l, ap (λ (x : Flow). x.state) same)
  | inr (nij, old) ↦
      t.unique i f found.at found.live j g old l (λ s. nij (sym s)) (p ∙ sym found.of_port)
]

module _ (sport dport dst now : ℕ) (web : (dport ≡ 80) ⊎ (dport ≡ 443)) where
  Kept-if :
      (b : Bool) (m n : Matched)
      → (b ≡ true → Kept m sport dport dst now)
      → (b ≡ false → Kept n sport dport dst now)
      → Kept (if b then m else n) sport dport dst now
  Kept-if true m n h k = h refl
  Kept-if false m n h k = k refl

  Kept-none : (fs : List Flow) → IsTable fs → Kept (fs, none) sport dport dst now
  Kept-none fs t = (t, λ i e. absurd (none-ne-some _ e))

  Kept-set :
      (fs : List Flow) (i : ℕ) (v : Flow)
      → IsTable fs
      → i < length fs
      → IsRouted v
      → NoOther fs i v.phone_port
      → (get_elem? (set fs i v) i ≡ some v → Carries (set fs i v) i sport dport dst now)
      → Kept (set fs i v, some i) sport dport dst now
  Kept-set fs i v t h r other c = (
    set-IsTable fs i v t r (λ l. other),
    λ j e.
        subst (λ k. Carries (set fs i v) k sport dport dst now) (some-injective _ _ e)
          (c (get_elem?-set_self fs i v h)),
  )

  flow_put-Kept :
      (fs : List Flow) (slot : Option ℕ)
      → IsTable fs
      → NoFlow fs sport
      → ((i : ℕ) → slot ≡ some i → i < length fs)
      → Kept (flow_put fs slot (flow_made sport dport dst now)) sport dport dst now
  unfolding flow_put
  flow_put-Kept fs none t fresh inside = Kept-none fs t
  flow_put-Kept fs (some i) t fresh inside =
      Kept-set fs i (flow_made sport dport dst now) t (inside i refl) (λ l. ground arith)
        (λ j g e l ne. fresh j g e l)
        (λ at. record {
          flow = flow_made sport dport dst now;
          at = at;
          live = refl;
          of_port = refl;
          orig_ip = refl;
          orig_port = refl;
          relay = refl;
          stamp = refl;
        })

  flow_new-Kept :
      (fs : List Flow)
      → IsTable fs
      → NoFlow fs sport
      → Kept (flow_new fs sport dport dst now) sport dport dst now
  flow_new-Kept fs t fresh =
      flow_put-Kept fs (flow_slot fs now) t fresh
        (λ i e. lt_of_get_elem? fs i (flow_slot_evicts fs now i e).1)

  touched-Kept :
      (fs : List Flow) (i : ℕ) (f : Flow)
      → IsTable fs
      → Found fs sport i f
      → is_same f dst dport ≡ true
      → Kept (set fs i (record f { stamp_ms = now }), some i) sport dport dst now
  touched-Kept fs i f t found same =
      let v : Flow = record f { stamp_ms = now } in
      let routed : IsRouted f = t.routed i f found.at in
      Kept-set fs i v t (lt_of_get_elem? fs i found.at) routed (t.unique i f found.at found.live)
        (λ at. record {
          flow = v;
          at = at;
          live = found.live;
          of_port = found.of_port;
          orig_ip = ground arith;
          orig_port = ground arith;
          relay = ground (arith, routed found.live);
          stamp = refl;
        })

  flow_match-none-Kept :
      (fs : List Flow) (syn intercept : Bool)
      → IsTable fs
      → NoFlow fs sport
      → Kept (flow_match fs none syn intercept sport dport dst now) sport dport dst now
  unfolding flow_match
  flow_match-none-Kept fs syn intercept t fresh =
      Kept-if intercept _ _ (λ b. flow_new-Kept fs t fresh) (λ b. Kept-none fs t)

  flow_match-some-Kept :
      (fs : List Flow) (i : ℕ) (f : Flow) (syn intercept : Bool)
      → (intercept ≡ true → syn ≡ true)
      → IsTable fs
      → Found fs sport i f
      → Kept (flow_match fs (some (i, f)) syn intercept sport dport dst now) sport dport dst now
  unfolding flow_match
  flow_match-some-Kept fs i f syn intercept only t found =
      let freed = set fs i (record f { state = free }) in
      let t' = IsTable-freed fs i f t in
      Kept-if (syn && (not (is_same f dst dport) || is_closed f.state)) _ _
        (λ renew.
          Kept-if intercept _ _ (λ b. flow_new-Kept freed t' (NoFlow-freed fs i sport f t found))
            (λ b. Kept-none freed t'))
        (λ keep. Kept-if (is_same f dst dport) _ _ (touched-Kept fs i f t found) (λ other.
          Kept-if intercept _ _ (λ b. absurd (ground (arith, only b))) (λ b. Kept-none fs t)))

  pub flow_match-Kept :
      (fs : List Flow) (found : Option (ℕ × Flow)) (syn intercept : Bool)
      → (intercept ≡ true → syn ≡ true)
      → IsTable fs
      → flow_find fs sport ≡ found
      → Kept (flow_match fs found syn intercept sport dport dst now) sport dport dst now
  flow_match-Kept fs none syn intercept only t e =
      flow_match-none-Kept fs syn intercept t (flow_find-none fs sport e)
  flow_match-Kept fs (some (i, f)) syn intercept only t e =
      flow_match-some-Kept fs i f syn intercept only t (flow_find_lem fs sport i f e)
