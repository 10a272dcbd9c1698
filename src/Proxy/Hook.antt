-- ===== src/Proxy/Hook.antt =====
-- The two places where main/http_proxy.c rewrites packets: the input hook and the wrapper of the PPP
-- interface's output.
pub mod Redirect
pub mod Connections
pub mod Reachable
use vetera_bridge.Prelude.{
  ℕ, ◌+◌, ◌*◌, ◌/◌, ◌%◌, Bool, not, ◌&&◌, ◌||◌, Option, none, some, List, ◌==◌, if◌then◌else◌, set,
}
use vetera_bridge.Proxy.Checksum.{Packet, tcp_headers, rewrite_dst, rewrite_src}
use vetera_bridge.Proxy.Flow.{
  relay_http_port, relay_tls_port, free, active, Flow, is_active, is_closed, flow_find, flow_slot,
}

-- Addresses as they sit in memory: 192.168.7.1 and 192.168.7.2 in network order.
abbrev pub gw_addr_n : ℕ
gw_addr_n = 1 * 16777216 + 7 * 65536 + 168 * 256 + 192

abbrev pub phone_addr_n : ℕ
phone_addr_n = 2 * 16777216 + 7 * 65536 + 168 * 256 + 192

-- `lwip_htons` and `lwip_ntohs`
abbrev pub swap16 : ℕ → ℕ
swap16 x = x % 256 * 256 + x / 256

-- What the hook reads of the rest of the bridge.
pub record Env : Type 0 where
  pub from_ppp : Bool
  pub ready : Bool
  pub wifi_up : Bool
  pub now : ℕ  -- uint32

-- `dport == 80 ? RELAY_HTTP_PORT : RELAY_TLS_PORT`
abbrev pub relay_for : ℕ → ℕ
relay_for dport = if dport == 80 then relay_http_port else relay_tls_port

-- Only the phone's TCP to port 80 or 443 of another host than the bridge is looked at.
unfoldable pub is_candidate : Env → Packet → Bool
is_candidate e p =
    e.from_ppp
    && tcp_headers p
    && p.src == phone_addr_n
    && not (p.dest == gw_addr_n)
    && (swap16 p.dport == 80 || swap16 p.dport == 443)

-- A flow table and the index of the flow that the packet belongs to.
abbrev pub Matched : Type 0
Matched = List Flow × Option ℕ

abbrev pub is_same : Flow → ℕ → ℕ → Bool
is_same f dst dport = f.orig_ip == dst && f.orig_port == dport

-- The flow of a new connection.
abbrev pub flow_made : ℕ → ℕ → ℕ → ℕ → Flow
flow_made sport dport dst now = record {
  state = active;
  phone_port = sport;
  relay_port = relay_for dport;
  orig_port = dport;
  orig_ip = dst;
  stamp_ms = now;
}

-- It goes to the slot that the table has for it.
unfoldable pub flow_put : List Flow → Option ℕ → Flow → Matched
flow_put fs none v = (fs, none)
flow_put fs (some i) v = (set fs i v, some i)

abbrev pub flow_new : List Flow → ℕ → ℕ → ℕ → ℕ → Matched
flow_new fs sport dport dst now = flow_put fs (flow_slot fs now) (flow_made sport dport dst now)

-- The critical section of `proxy_ip4_input_hook`, by what `flow_find` gave: a SYN that is no repeat
-- of a live flow frees the old one, and starts a new one if the bridge intercepts.
unfoldable pub flow_match : List Flow → Option (ℕ × Flow) → Bool → Bool → ℕ → ℕ → ℕ → ℕ → Matched
flow_match fs none syn intercept sport dport dst now =
    if intercept then flow_new fs sport dport dst now else (fs, none)
flow_match fs (some (i, f)) syn intercept sport dport dst now =
    let same = is_same f dst dport in
    let freed = set fs i (record f { state = free }) in
    if syn && (not same || is_closed f.state)
    then (if intercept then flow_new freed sport dport dst now else (freed, none))
    else if same
    then (set fs i (record f { stamp_ms = now }), some i)
    else if intercept
    then flow_new fs sport dport dst now
    else (fs, none)

-- `proxy_ip4_input_hook`; a SYN has the SYN flag without ACK.
unfoldable pub input_hook : Env → List Flow → Packet → List Flow × Packet
input_hook e fs p =
    let sport = swap16 p.sport in
    let dport = swap16 p.dport in
    let syn = p.syn && not p.ack in
    let found =
      flow_match fs (flow_find fs sport) syn (syn && e.ready && e.wifi_up) sport dport p.dest
        e.now in
    if is_candidate e p
    then (
      found.0,
      elim found.1 [ none ↦ p | some i ↦ rewrite_dst p gw_addr_n (swap16 (relay_for dport)) ],
    )
    else (fs, p)

-- What the wrapper hands to the interface: the packet, or ERR_MEM.
pub data Sent : Type 0 where
  out : Packet → Sent
  err_mem : Sent

-- The flow of a reply that leaves a relay port.
unfoldable pub reply_flow : List Flow → ℕ → ℕ → Option (ℕ × Flow)
reply_flow fs sport dport = elim (flow_find fs dport) [
  | none ↦ none
  | some (i, f) ↦ if f.relay_port == sport then some (i, f) else none
]

-- `proxy_netif_output`; `cloned` says whether `pbuf_clone` had memory.
unfoldable pub netif_output : Bool → ℕ → List Flow → Packet → List Flow × Sent
netif_output cloned now fs p =
    let sport = swap16 p.sport in
    if not (tcp_headers p) || not (sport == relay_http_port || sport == relay_tls_port)
    then (fs, out p)
    else elim (reply_flow fs sport (swap16 p.dport)) [
      | none ↦ (fs, out p)
      | some (i, f) ↦ (
        if is_active f.state then set fs i (record f { stamp_ms = now }) else fs,
        if cloned then out (rewrite_src p f.orig_ip (swap16 f.orig_port)) else err_mem,
      )
    ]
