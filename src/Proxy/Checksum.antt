-- ===== src/Proxy/Checksum.antt =====
-- The packets that main/http_proxy.c rewrites, and its incremental checksum update. A packet is its
-- header fields as the raw words that sit in memory; the other words that a checksum
-- covers are lists.
pub mod Sums
pub mod Rewrites
use vetera_bridge.Prelude.{ℕ, ◌+◌, ◌-◌, ◌/◌, ◌%◌, Bool, not, ◌&&◌, List, ltb, ◌==◌, u16}

-- `csum_adj`: the update of RFC 1624. All three are uint16, the sum is uint32.
unfoldable pub csum_adj : ℕ → ℕ → ℕ → ℕ
csum_adj sum old new' =
    let s = (65535 - u16 sum) + (65535 - u16 old) + new' in
    let s1 = s % 65536 + s / 65536 in let s2 = s1 % 65536 + s1 / 65536 in 65535 - u16 s2

-- `csum_adj32`, by the two words of a 32-bit value
unfoldable pub csum_adj32 : ℕ → ℕ → ℕ → ℕ
csum_adj32 sum old new' =
    csum_adj (csum_adj sum (u16 (old / 65536)) (u16 (new' / 65536))) (u16 old) (u16 new')

-- What of an IPv4 packet the proxy reads or writes: the length of its first pbuf, the IP version,
-- the protocol, the IP header's length in bytes, the fragment offset with the more-fragments flag,
-- the addresses and checksums, and the TCP ports and flags.
pub record Packet : Type 0 where
  pub len : ℕ
  pub version : ℕ
  pub proto : ℕ
  pub header_len : ℕ
  pub fragment : ℕ
  pub src : ℕ
  pub dest : ℕ
  pub ip_sum : ℕ
  pub sport : ℕ
  pub dport : ℕ
  pub syn : Bool
  pub ack : Bool
  pub tcp_sum : ℕ
  pub ip_rest : List ℕ  -- the other words of the IP header
  pub tcp_rest : List ℕ  -- the other words that the TCP checksum covers

-- `tcp_headers`: TCP over IPv4, both headers in the first pbuf, not a fragment.
unfoldable pub tcp_headers : Packet → Bool
tcp_headers p =
    not (ltb p.len 20)
    && p.version == 4
    && p.proto == 6
    && not (ltb p.header_len 20)
    && not (ltb p.len (p.header_len + 20))
    && p.fragment == 0

-- `rewrite_dst` and `rewrite_src`; the port is in network order, as it stands in the packet.
unfoldable pub rewrite_dst : Packet → ℕ → ℕ → Packet
rewrite_dst p ip port = record p {
  dest = ip;
  dport = port;
  ip_sum = csum_adj32 p.ip_sum p.dest ip;
  tcp_sum = csum_adj (csum_adj32 p.tcp_sum p.dest ip) p.dport port;
}

unfoldable pub rewrite_src : Packet → ℕ → ℕ → Packet
rewrite_src p ip port = record p {
  src = ip;
  sport = port;
  ip_sum = csum_adj32 p.ip_sum p.src ip;
  tcp_sum = csum_adj (csum_adj32 p.tcp_sum p.src ip) p.sport port;
}
