-- ===== src/Proxy/Hook/Connections.antt =====
-- What the phone sees of the redirect of main/http_proxy.c.
use vetera_bridge.Prelude.{
  ℕ, ◌<◌, ◌≡◌, refl, sym, ap, ap₂, ◌∙◌, ◌≢◌, ◌⊎◌, inl, inr, true, not, ◌&&◌, ◌||◌, some, List,
  arith, ◌==◌, Bool-cases, Option-cases,
}
use vetera_bridge.Proxy.Checksum.{Packet, tcp_headers, rewrite_dst, rewrite_src}
use vetera_bridge.Proxy.Flow.{relay_http_port, relay_tls_port, Flow, flow_find}
use vetera_bridge.Proxy.Flow.Table.{IsTable, flow_find_of}
use vetera_bridge.Proxy.Hook.{
  gw_addr_n, swap16, Env, relay_for, is_candidate, Matched, flow_match, input_hook, out, reply_flow,
  netif_output,
}
use vetera_bridge.Proxy.Hook.Redirect.{Carries, flow_match-Kept}

swap16_twice : (x : ℕ) → x < 65536 → swap16 (swap16 x) ≡ x
swap16_twice x h = omega arith

web_of_candidate :
    (e : Env) (p : Packet)
    → is_candidate e p ≡ true
    → (swap16 p.dport ≡ 80) ⊎ (swap16 p.dport ≡ 443)
unfolding is_candidate
web_of_candidate e p h = ground arith

-- The match that the hook makes for a packet.
abbrev match_of : Env → List Flow → Packet → Matched
match_of e fs p =
    let syn = p.syn && not p.ack in
    flow_match fs (flow_find fs (swap16 p.sport)) syn (syn && e.ready && e.wifi_up) (swap16 p.sport)
      (swap16 p.dport) p.dest e.now

match_of-Kept :
    (e : Env) (fs : List Flow) (p : Packet)
    → IsTable fs
    → is_candidate e p ≡ true
    → IsTable (match_of e fs p).0
      × ((i : ℕ)
          → (match_of e fs p).1 ≡ some i
          → Carries (match_of e fs p).0 i (swap16 p.sport) (swap16 p.dport) p.dest e.now)
match_of-Kept e fs p t c =
    flow_match-Kept (swap16 p.sport) (swap16 p.dport) p.dest e.now (web_of_candidate e p c) fs
      (flow_find fs (swap16 p.sport)) _ _ (λ b. ground arith) t refl

pub input_hook-IsTable :
    (e : Env) (fs : List Flow) (p : Packet) → IsTable fs → IsTable (input_hook e fs p).0
unfolding input_hook
input_hook-IsTable e fs p t = elim (Bool-cases (is_candidate e p)) [
  | inl c ↦ rw c (match_of-Kept e fs p t c).0
  | inr n ↦ rw n t
]

-- A packet for another host comes out of the hook for the bridge only if it is a candidate that
-- matched a flow.
matched_of_redirected :
    (e : Env) (fs : List Flow) (p : Packet)
    → p.dest ≢ gw_addr_n
    → (input_hook e fs p).1.dest ≡ gw_addr_n
    → (is_candidate e p ≡ true) × ((i : ℕ) × ((match_of e fs p).1 ≡ some i))
unfolding input_hook
matched_of_redirected e fs p other h = elim (Bool-cases (is_candidate e p)) [
  | inl c ↦ elim (Option-cases (match_of e fs p).1) [
    | inl n ↦ absurd (other (rw (c, n) at h))
    | inr (i, m) ↦ (c, (i, m))
  ]
  | inr n ↦ absurd (other (rw n at h))
]

-- A reply of the relay for a flow of the table leaves with the flow's original address.
output_of_flow :
    (now : ℕ) (fs : List Flow) (r : Packet) (i : ℕ) (f : Flow)
    → tcp_headers r ≡ true
    → (swap16 r.sport == relay_http_port || swap16 r.sport == relay_tls_port) ≡ true
    → flow_find fs (swap16 r.dport) ≡ some (i, f)
    → f.relay_port ≡ swap16 r.sport
    → (netif_output true now fs r).1 ≡ out (rewrite_src r f.orig_ip (swap16 f.orig_port))
unfolding netif_output reply_flow
output_of_flow now fs r i f h relay found same =
    let relays : (f.relay_port == swap16 r.sport) ≡ true = ground arith in
    rw (h, relay, found, relays) refl

input_hook_matched :
    (e : Env) (fs : List Flow) (p : Packet) (i : ℕ)
    → is_candidate e p ≡ true
    → (match_of e fs p).1 ≡ some i
    → input_hook e fs p
      ≡ ((match_of e fs p).0, rewrite_dst p gw_addr_n (swap16 (relay_for (swap16 p.dport))))
unfolding input_hook
input_hook_matched e fs p i c m = rw (c, m) refl

relay_is_relay :
    (dport sport : ℕ)
    → sport ≡ swap16 (relay_for dport)
    → (swap16 sport ≡ relay_for dport)
      × ((swap16 sport == relay_http_port || swap16 sport == relay_tls_port) ≡ true)
relay_is_relay dport sport e = (ground arith, ground arith)

-- The redirect is invisible to the phone: if the hook, on a table in which each phone port has at
-- most one live flow, sends a packet for another host to the bridge, a reply of the relay to it,
-- TCP with both headers in the first buffer, leaves with that host's address and port as its
-- source, and is otherwise the relay's packet with its checksums adjusted, if there is memory for
-- the copy.
pub redirect_roundtrip :
    (e : Env) (fs : List Flow) (p r : Packet) (now : ℕ)
    → IsTable fs
    → p.dport < 65536
    → p.dest ≢ gw_addr_n
    → (input_hook e fs p).1.dest ≡ gw_addr_n
    → tcp_headers r ≡ true
    → r.sport ≡ (input_hook e fs p).1.dport
    → r.dport ≡ p.sport
    → (netif_output true now (input_hook e fs p).0 r).1 ≡ out (rewrite_src r p.dest p.dport)
unfolding rewrite_dst
redirect_roundtrip e fs p r now t wide other redirected h source target =
    let (c, (i, m)) = matched_of_redirected e fs p other redirected in
    let whole = input_hook_matched e fs p i c m in
    let (t', carries) = match_of-Kept e fs p t c in
    let k = carries i m in
    let port : swap16 r.dport ≡ swap16 p.sport = ap swap16 target in
    let found : flow_find (match_of e fs p).0 (swap16 r.dport) ≡ some (i, k.flow) =
      flow_find_of (match_of e fs p).0 (swap16 r.dport) i k.flow t'
        (record { at = k.at; live = k.live; of_port = k.of_port ∙ sym port }) in
    let relay =
      relay_is_relay (swap16 p.dport) r.sport
        (source ∙ ap (λ (x : List Flow × Packet). x.1.dport) whole) in
    ap (λ (x : List Flow × Packet). (netif_output true now x.0 r).1) whole
    ∙ output_of_flow now (match_of e fs p).0 r i k.flow h relay.1 found (k.relay ∙ sym relay.0)
    ∙ ap₂ (λ ip port. out (rewrite_src r ip port)) k.orig_ip
        (ap swap16 k.orig_port ∙ swap16_twice p.dport wide)
