-- ===== src/Proxy/Hook/Reachable.antt =====
-- Every flow table that main/http_proxy.c can reach keeps its invariant, and connections are taken in
-- only while there is a proxy and WiFi.
use mathlib.Core.Option.{some-injective, none-ne-some}
use vetera_bridge.Prelude.{
  ℕ, zero, suc, ◌≡◌, refl, sym, ◌∙◌, subst, ◌≢◌, inl, inr, Bool, true, false, not, ◌&&◌, ◌||◌,
  Option, none, some, List, [], ◌∷◌, arith, ◌==◌, if◌then◌else◌, Bool-cases, Option-cases,
  get_elem?, set, replicate, get_elem?-set_inv,
}
use vetera_bridge.Proxy.Checksum.{Packet, tcp_headers}
use vetera_bridge.Proxy.Flow.{
  relay_http_port, relay_tls_port, Flow, is_free, is_active, is_closed, flow_find, flow_mark_closed,
  no_flow, no_flows,
}
use vetera_bridge.Proxy.Flow.Table.{IsLive, IsTable, set-IsTable, flow_find_lem}
use vetera_bridge.Proxy.Hook.{
  swap16, Env, is_candidate, is_same, flow_match, input_hook, reply_flow, netif_output,
}
use vetera_bridge.Proxy.Hook.Connections.{input_hook-IsTable}

-- What touches the table: the hook, the output wrapper, a session that closes, a new PPP session.
pub data Op : Type 0 where
  recv : Env → Packet → Op
  send : Bool → ℕ → Packet → Op
  close : ℕ → ℕ → Op
  attach : Op

unfoldable pub apply_op : List Flow → Op → List Flow
apply_op fs (recv e p) = (input_hook e fs p).0
apply_op fs (send cloned now p) = (netif_output cloned now fs p).0
apply_op fs (close port now) = flow_mark_closed fs port now
apply_op fs attach = no_flows

unfoldable pub apply_ops : List Flow → List Op → List Flow
apply_ops fs [] = fs
apply_ops fs (op ∷ ops) = apply_ops (apply_op fs op) ops

-- A write that changes neither port nor route, at the flow that was found, keeps the invariant.
rewrite-IsTable :
    (fs : List Flow) (port i : ℕ) (f v : Flow)
    → IsTable fs
    → flow_find fs port ≡ some (i, f)
    → v.phone_port ≡ f.phone_port
    → (v.orig_port ≡ f.orig_port) × (v.relay_port ≡ f.relay_port)
    → IsTable (set fs i v)
rewrite-IsTable fs port i f v t e same route =
    let found = flow_find_lem fs port i f e in
    set-IsTable fs i v t (λ l. rw (route.0, route.1) (t.routed i f found.at found.live))
      (λ l. rw same (t.unique i f found.at found.live))

replicate-free :
    (n i : ℕ) (f : Flow) → get_elem? (replicate n no_flow) i ≡ some f → is_free f.state ≡ true
replicate-free zero i f e = absurd (none-ne-some _ e)
replicate-free (suc n) zero f e = rw (← some-injective _ _ e) refl
replicate-free (suc n) (suc i) f e = replicate-free n i f e

pub no_flows-IsTable : IsTable no_flows
unfolding no_flows
no_flows-IsTable = record {
  unique = λ i f e l. absurd (true-ne-false (sym (replicate-free 16 i f e) ∙ l));
  routed = λ i f e l. absurd (true-ne-false (sym (replicate-free 16 i f e) ∙ l));
}
  where
    true-ne-false : true ≢ false
    true-ne-false e = cc

flow_mark_closed-IsTable :
    (fs : List Flow) (port now : ℕ) → IsTable fs → IsTable (flow_mark_closed fs port now)
unfolding flow_mark_closed
flow_mark_closed-IsTable fs port now t = elim (Option-cases (flow_find fs port)) [
  | inl n ↦ rw (n, flow_mark_closed) t
  | inr ((i, f), e) ↦ rw (e, flow_mark_closed) (rewrite-IsTable fs port i f _ t e refl (refl, refl))
]

reply_flow_lem :
    (fs : List Flow) (sport dport i : ℕ) (f : Flow)
    → reply_flow fs sport dport ≡ some (i, f)
    → flow_find fs dport ≡ some (i, f)
unfolding reply_flow
reply_flow_lem fs sport dport i f h = elim (Option-cases (flow_find fs dport)) [
  | inl n ↦ absurd (none-ne-some _ (rw (n, reply_flow) at h))
  | inr (x, e) ↦ elim (Bool-cases (x.1.relay_port == sport)) [
    | inl t ↦ e ∙ (rw (e, t, reply_flow) at h)
    | inr n ↦ absurd (none-ne-some _ (rw (e, n, reply_flow) at h))
  ]
]

stamp-IsTable :
    (b : Bool) (now : ℕ) (fs : List Flow) (port i : ℕ) (f : Flow)
    → IsTable fs
    → flow_find fs port ≡ some (i, f)
    → IsTable (if b then set fs i (record f { stamp_ms = now }) else fs)
stamp-IsTable true now fs port i f t e = rewrite-IsTable fs port i f _ t e refl (refl, refl)
stamp-IsTable false now fs port i f t e = t

netif_output-IsTable :
    (cloned : Bool) (now : ℕ) (fs : List Flow) (p : Packet)
    → IsTable fs
    → IsTable (netif_output cloned now fs p).0
unfolding netif_output
netif_output-IsTable cloned now fs p t =
    elim (Bool-cases (
      not (tcp_headers p)
      || not (swap16 p.sport == relay_http_port || swap16 p.sport == relay_tls_port))) [
        | inl b ↦ rw (b, netif_output) t
        | inr b ↦ elim (Option-cases (reply_flow fs (swap16 p.sport) (swap16 p.dport))) [
          | inl n ↦ rw (b, n, netif_output) t
          | inr ((i, f), e) ↦
              rw (b, e, netif_output)
                (stamp-IsTable (is_active f.state) now fs (swap16 p.dport) i f t
                  (reply_flow_lem fs _ _ i f e))
        ]
      ]

apply_op-IsTable : (fs : List Flow) (op : Op) → IsTable fs → IsTable (apply_op fs op)
unfolding apply_op
apply_op-IsTable fs (recv e p) t = input_hook-IsTable e fs p t
apply_op-IsTable fs (send cloned now p) t = netif_output-IsTable cloned now fs p t
apply_op-IsTable fs (close port now) t = flow_mark_closed-IsTable fs port now t
apply_op-IsTable fs attach t = no_flows-IsTable

-- From a table in which each phone port has at most one live flow, and each live flow goes to the
-- relay of its original port, which is 80 or 443, every table is such a table that is reached as
-- packets come and go, sessions close and PPP sessions start.
pub apply_ops-IsTable : (ops : List Op) (fs : List Flow) → IsTable fs → IsTable (apply_ops fs ops)
unfolding apply_ops
apply_ops-IsTable [] fs t = t
apply_ops-IsTable (op ∷ ops) fs t =
    apply_ops-IsTable ops (apply_op fs op) (apply_op-IsTable fs op t)

-- A live flow of the new table that stood in the old one with the same route.
abbrev IsOld : List Flow → ℕ → Flow → Type 0
IsOld fs j g =
    (f : Flow) × (get_elem? fs j ≡ some f)
    × IsLive f
    × (g.phone_port ≡ f.phone_port)
    × (g.orig_ip ≡ f.orig_ip)
    × (g.orig_port ≡ f.orig_port)

abbrev AllOld : List Flow → List Flow → Type 0
AllOld fs fs' = (j : ℕ) (g : Flow) → get_elem? fs' j ≡ some g → IsLive g → IsOld fs j g

AllOld-refl : (fs : List Flow) → AllOld fs fs
AllOld-refl fs j g e l = (g, e, l, refl, refl, refl)

AllOld-set :
    (fs : List Flow) (i : ℕ) (v : Flow) → (IsLive v → IsOld fs i v) → AllOld fs (set fs i v)
AllOld-set fs i v h j g e l = elim (get_elem?-set_inv fs i j v e) [
  | inl (ij, same) ↦ subst (λ k. IsOld fs k g) ij (subst (IsOld fs i) same (h (rw same l)))
  | inr (n, old) ↦ (g, old, l, refl, refl, refl)
]

flow_match-AllOld :
    (fs : List Flow) (found : Option (ℕ × Flow)) (syn : Bool) (sport dport dst now : ℕ)
    → flow_find fs sport ≡ found
    → AllOld fs (flow_match fs found syn false sport dport dst now).0
unfolding flow_match
flow_match-AllOld fs none syn sport dport dst now e = AllOld-refl fs
flow_match-AllOld fs (some (i, f)) syn sport dport dst now e =
    let found = flow_find_lem fs sport i f e in
    elim (Bool-cases (syn && (not (is_same f dst dport) || is_closed f.state))) [
      | inl t ↦ rw (t, flow_match) (AllOld-set fs i _ (λ l. cc))
      | inr n ↦ elim (Bool-cases (is_same f dst dport)) [
        | inl s ↦
            rw (n, s, flow_match)
              (AllOld-set fs i _ (λ l. (f, found.at, found.live, refl, refl, refl)))
        | inr d ↦ rw (n, d, flow_match) (AllOld-refl fs)
      ]
    ]

-- With the proxy off or unset, or with WiFi down, the hook takes in no new connection: every live
-- flow after it stood in the table before, with the same phone port and the same original
-- destination.
pub off_takes_nothing :
    (e : Env) (fs : List Flow) (p : Packet)
    → (e.ready && e.wifi_up) ≡ false
    → (j : ℕ) (g : Flow) → get_elem? (input_hook e fs p).0 j ≡ some g
    → IsLive g
    → (f : Flow) × (get_elem? fs j ≡ some f)
      × IsLive f
      × (g.phone_port ≡ f.phone_port)
      × (g.orig_ip ≡ f.orig_ip)
      × (g.orig_port ≡ f.orig_port)
unfolding input_hook
off_takes_nothing e fs p off = elim (Bool-cases (is_candidate e p)) [
  | inl c ↦
      let no_new : ((p.syn && not p.ack) && e.ready && e.wifi_up) ≡ false = ground arith in
      rw (c, no_new)
        (flow_match-AllOld fs (flow_find fs (swap16 p.sport)) (p.syn && not p.ack) _ _ _ _ refl)
  | inr n ↦ rw n (AllOld-refl fs)
]
