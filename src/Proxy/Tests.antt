-- ===== src/Proxy/Tests.antt =====
-- The theorems on main/http_proxy.c at a concrete connection.
use vetera_bridge.Prelude.{
  ℕ, ◌+◌, ◌*◌, ◌≤◌, ◌<◌, ◌≡◌, refl, true, false, none, some, List, [], ◌∷◌, ◌++◌, arith, get_elem?,
  take, replicate, codes,
}
use vetera_bridge.Proxy.Checksum.{Packet, tcp_headers, rewrite_dst, rewrite_src}
use vetera_bridge.Proxy.Checksum.Sums.{sum_from, IsAccepted}
use vetera_bridge.Proxy.Checksum.Rewrites.{ip_words, tcp_words, IsWide, rewrites-IsAccepted}
use vetera_bridge.Proxy.Settings.{proxy_set, settings_load}
use vetera_bridge.Proxy.Flow.{
  active, Flow, flow_find_from, flow_find, flow_slot_from, flow_slot, no_flows,
}
use vetera_bridge.Proxy.Flow.Table.{IsTable}
use vetera_bridge.Proxy.Settings.Saving.{settings_load-proxy_set}
use vetera_bridge.Proxy.Sni.{
  named, all_host_bytes, host_ok, c_string, name_loop, ext_loop, skip8, skip16, hello_body, tls_sni,
}
use vetera_bridge.Proxy.Sni.Safe.{IsSafe, tls_sni-IsSafe}
use vetera_bridge.Proxy.Hook.{
  gw_addr_n, phone_addr_n, swap16, Env, is_candidate, flow_put, flow_match, input_hook, out,
  netif_output,
}
use vetera_bridge.Proxy.Hook.Connections.{redirect_roundtrip}
use vetera_bridge.Proxy.Hook.Reachable.{
  Op, recv, send, close, attach, apply_ops, no_flows-IsTable, apply_ops-IsTable,
}

-- 93.184.216.34, as it sits in memory
abbrev site : ℕ
site = 34 * 16777216 + 216 * 65536 + 184 * 256 + 93

-- A SYN of the phone from port 40000 to port 443 of the site.
abbrev phone_syn : Packet
phone_syn = record {
  len = 40;
  version = 4;
  proto = 6;
  header_len = 20;
  fragment = 0;
  src = phone_addr_n;
  dest = site;
  ip_sum = 19261;
  sport = swap16 40000;
  dport = swap16 443;
  syn = true;
  ack = false;
  tcp_sum = 25108;
  ip_rest = 69 ∷ 10240 ∷ 64 ∷ 1600 ∷ [];
  tcp_rest = 1536 ∷ 5120 ∷ 592 ∷ [];
}

phone_syn-IsWide : IsWide phone_syn
phone_syn-IsWide = record {
  src = omega arith;
  dest = omega arith;
  ip_sum = omega arith;
  sport = omega arith;
  dport = omega arith;
  tcp_sum = omega arith;
  ip_rest = (omega arith, (omega arith, (omega arith, (omega arith, tt))));
  tcp_rest = (omega arith, (omega arith, (omega arith, tt)));
  ip_rest_pos = omega arith;
  tcp_rest_pos = omega arith;
}

rewrites-IsAccepted_example :
    IsAccepted (ip_words (rewrite_dst phone_syn gw_addr_n 29453))
    × IsAccepted (tcp_words (rewrite_dst phone_syn gw_addr_n 29453))
    × IsAccepted (ip_words (rewrite_src phone_syn gw_addr_n 29453))
    × IsAccepted (tcp_words (rewrite_src phone_syn gw_addr_n 29453))
unfolding sum_from
rewrites-IsAccepted_example =
    rewrites-IsAccepted phone_syn gw_addr_n 29453 phone_syn-IsWide (omega arith) (omega arith) refl
      refl

abbrev seen_now : Env
seen_now = record { from_ppp = true; ready = true; wifi_up = true; now = 5000 }

-- The relay's answer to the phone.
abbrev relay_reply : Packet
relay_reply = record phone_syn {
  src = gw_addr_n;
  dest = phone_addr_n;
  sport = swap16 3443;
  dport = swap16 40000;
  ack = true;
}

hook_takes : (input_hook seen_now no_flows phone_syn).1.dest ≡ gw_addr_n
unfolding input_hook is_candidate tcp_headers flow_match flow_find flow_find_from flow_put flow_slot
    flow_slot_from no_flows rewrite_dst
hook_takes = refl

hook_port : relay_reply.sport ≡ (input_hook seen_now no_flows phone_syn).1.dport
unfolding input_hook is_candidate tcp_headers flow_match flow_find flow_find_from flow_put flow_slot
    flow_slot_from no_flows rewrite_dst
hook_port = refl

relay_headers : tcp_headers relay_reply ≡ true
unfolding tcp_headers
relay_headers = refl

redirect_roundtrip_example :
    (netif_output true 5100 (input_hook seen_now no_flows phone_syn).0 relay_reply).1
    ≡ out (rewrite_src relay_reply site (swap16 443))
redirect_roundtrip_example =
    redirect_roundtrip seen_now no_flows phone_syn relay_reply 5100 no_flows-IsTable (omega arith)
      (omega arith) hook_takes relay_headers hook_port refl

-- All sixteen slots are live, and the fourth has been idle for three minutes.
abbrev busy : ℕ → ℕ → Flow
busy port stamp = record {
  state = active;
  phone_port = port;
  relay_port = 3443;
  orig_port = 443;
  orig_ip = site;
  stamp_ms = stamp;
}

abbrev full_table : List Flow
full_table =
    busy 1 200000 ∷ busy 2 190000 ∷ busy 3 100000 ∷ busy 4 20000 ∷ replicate 12 (busy 5 199000)

full_table_slot : flow_slot full_table 200000 ≡ some 3
unfolding flow_slot flow_slot_from
full_table_slot = refl

abbrev history : List Op
history = attach ∷ recv seen_now phone_syn ∷ send true 5100 relay_reply ∷ close 40000 6000 ∷ []

apply_ops-IsTable_example : IsTable (apply_ops no_flows history)
apply_ops-IsTable_example = apply_ops-IsTable history no_flows no_flows-IsTable

-- The proxy goes off while the table is full: a new SYN takes no slot.
abbrev off_now : Env
off_now = record seen_now { ready = false; now = 200000 }

full_table_kept : get_elem? (input_hook off_now full_table phone_syn).0 3 ≡ some (busy 4 20000)
unfolding input_hook is_candidate tcp_headers flow_match flow_find flow_find_from flow_put flow_slot
    flow_slot_from rewrite_dst
full_table_kept = refl

-- A host that is saved with its port is there after a reboot.
settings_load-proxy_set_example :
    let (now, kept) =
      proxy_set true
        (record { on = none; host = none; port = none })
        true
        (codes "proxy.lan")
        8080 in
    (9 < 64 → settings_load true kept ≡ now)
    × (64 ≤ 9
        → ((settings_load true kept).ready ≡ false) × (now.host ≡ take 63 (codes "proxy.lan")))
settings_load-proxy_set_example =
    settings_load-proxy_set (record { on = none; host = none; port = none }) true
      (codes "proxy.lan") 8080

-- A ClientHello with the server name `a.b`.
abbrev client_hello : List ℕ
client_hello =
    0x16
    ∷ 3
    ∷ 1
    ∷ 0
    ∷ 59
    ∷ 1
    ∷ 0
    ∷ 0
    ∷ 55
    ∷ 3
    ∷ 3
    ∷ (replicate 32 7
        ++ (0 ∷ 0 ∷ 2 ∷ 0 ∷ 47 ∷ 1 ∷ 0 ∷ 0 ∷ 12 ∷ 0 ∷ 0 ∷ 0 ∷ 8 ∷ 0 ∷ 6 ∷ 0 ∷ 0 ∷ 3 ∷ codes "a.b"))

client_hello_name : tls_sni client_hello 64 ≡ named (codes "a.b")
unfolding tls_sni hello_body skip8 skip16 ext_loop name_loop host_ok all_host_bytes c_string
client_hello_name = refl

tls_sni-IsSafe_example : IsSafe 64 (tls_sni client_hello 64)
tls_sni-IsSafe_example = tls_sni-IsSafe client_hello 64
