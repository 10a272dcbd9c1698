-- ===== src/Proxy/Checksum/Rewrites.antt =====
-- The rewritten packets of main/http_proxy.c keep valid checksums.
use vetera_bridge.Prelude.{ℕ, ◌/◌, ◌%◌, ◌<◌, ◌≡◌, ◌∙◌, List, ◌∷◌, arith}
use vetera_bridge.Proxy.Checksum.{csum_adj32, Packet, rewrite_dst, rewrite_src}
use vetera_bridge.Proxy.Checksum.Sums.{
  IsAccepted, total, AreWords, IsAccepted-iff-total, csum_adj_lem, csum_adj32_lem,
}

-- The two words of a 32-bit value as it sits in memory.
abbrev halves : ℕ → List ℕ → List ℕ
halves x ws = (x / 65536) ∷ (x % 65536) ∷ ws

-- The words that the IP checksum covers, and those that the TCP checksum covers, addresses included.
abbrev pub ip_words : Packet → List ℕ
ip_words p = p.ip_sum ∷ halves p.src (halves p.dest p.ip_rest)

abbrev pub tcp_words : Packet → List ℕ
tcp_words p = p.tcp_sum ∷ p.sport ∷ p.dport ∷ halves p.src (halves p.dest p.tcp_rest)

-- The fields have the widths of the C types, and the words that are not rewritten are not all zero:
-- the version stands among those of the IP header, the protocol among those of TCP.
pub record IsWide (p : Packet) : Type 0 where
  pub src : p.src < 4294967296
  pub dest : p.dest < 4294967296
  pub ip_sum : p.ip_sum < 65536
  pub sport : p.sport < 65536
  pub dport : p.dport < 65536
  pub tcp_sum : p.tcp_sum < 65536
  pub ip_rest : AreWords p.ip_rest
  pub tcp_rest : AreWords p.tcp_rest
  pub ip_rest_pos : 0 < total p.ip_rest
  pub tcp_rest_pos : 0 < total p.tcp_rest

-- Acceptance goes by the plain sum modulo 65535.
IsAccepted-same :
    (ws ws' : List ℕ)
    → AreWords ws
    → AreWords ws'
    → total ws' % 65535 ≡ total ws % 65535
    → 0 < total ws'
    → IsAccepted ws
    → IsAccepted ws'
IsAccepted-same ws ws' k k' e pos h =
    (IsAccepted-iff-total ws' k').1 (e ∙ ((IsAccepted-iff-total ws k).0 h).0, pos)

AreWords-halves : (x : ℕ) (ws : List ℕ) → x < 4294967296 → AreWords ws → AreWords (halves x ws)
AreWords-halves x ws h k = (omega arith, (omega arith, k))

module _ (p : Packet) (w : IsWide p) where
  AreWords-ip : AreWords (ip_words p)
  AreWords-ip = (
    w.ip_sum,
    AreWords-halves p.src (halves p.dest p.ip_rest) w.src
        (AreWords-halves p.dest p.ip_rest w.dest w.ip_rest),
  )

  AreWords-tcp : AreWords (tcp_words p)
  AreWords-tcp =
      let dest = AreWords-halves p.dest p.tcp_rest w.dest w.tcp_rest in
      (w.tcp_sum, (w.sport, (w.dport, AreWords-halves p.src (halves p.dest p.tcp_rest) w.src dest)))

module _ (p : Packet) (ip port : ℕ) (w : IsWide p) (hi : ip < 4294967296) (hp : port < 65536) where
  rewrite_dst-IsWide : IsWide (rewrite_dst p ip port)
  unfolding rewrite_dst
  rewrite_dst-IsWide = record {
    src = w.src;
    dest = hi;
    ip_sum = (csum_adj32_lem p.ip_sum p.dest ip w.ip_sum w.dest hi).0;
    sport = w.sport;
    dport = hp;
    tcp_sum =
        (csum_adj_lem (csum_adj32 p.tcp_sum p.dest ip) p.dport port
          (csum_adj32_lem p.tcp_sum p.dest ip w.tcp_sum w.dest hi).0 w.dport hp).0;
    ip_rest = w.ip_rest;
    tcp_rest = w.tcp_rest;
    ip_rest_pos = w.ip_rest_pos;
    tcp_rest_pos = w.tcp_rest_pos;
  }

  rewrite_src-IsWide : IsWide (rewrite_src p ip port)
  unfolding rewrite_src
  rewrite_src-IsWide = record {
    src = hi;
    dest = w.dest;
    ip_sum = (csum_adj32_lem p.ip_sum p.src ip w.ip_sum w.src hi).0;
    sport = hp;
    dport = w.dport;
    tcp_sum =
        (csum_adj_lem (csum_adj32 p.tcp_sum p.src ip) p.sport port
          (csum_adj32_lem p.tcp_sum p.src ip w.tcp_sum w.src hi).0 w.sport hp).0;
    ip_rest = w.ip_rest;
    tcp_rest = w.tcp_rest;
    ip_rest_pos = w.ip_rest_pos;
    tcp_rest_pos = w.tcp_rest_pos;
  }

  dst_totals :
      (total (ip_words (rewrite_dst p ip port)) % 65535 ≡ total (ip_words p) % 65535)
      × (total (tcp_words (rewrite_dst p ip port)) % 65535 ≡ total (tcp_words p) % 65535)
  unfolding rewrite_dst
  dst_totals =
      let one = csum_adj32_lem p.ip_sum p.dest ip w.ip_sum w.dest hi in
      let two = csum_adj32_lem p.tcp_sum p.dest ip w.tcp_sum w.dest hi in
      let three = csum_adj_lem (csum_adj32 p.tcp_sum p.dest ip) p.dport port two.0 w.dport hp in
      (omega (arith, one.1), omega (arith, two.1, three.1))

  src_totals :
      (total (ip_words (rewrite_src p ip port)) % 65535 ≡ total (ip_words p) % 65535)
      × (total (tcp_words (rewrite_src p ip port)) % 65535 ≡ total (tcp_words p) % 65535)
  unfolding rewrite_src
  src_totals =
      let one = csum_adj32_lem p.ip_sum p.src ip w.ip_sum w.src hi in
      let two = csum_adj32_lem p.tcp_sum p.src ip w.tcp_sum w.src hi in
      let three = csum_adj_lem (csum_adj32 p.tcp_sum p.src ip) p.sport port two.0 w.sport hp in
      (omega (arith, one.1), omega (arith, two.1, three.1))

-- A packet whose checksums a receiver accepts still has both of them accepted after either rewrite,
-- to any address and port.
pub rewrites-IsAccepted :
    (p : Packet) (ip port : ℕ)
    → IsWide p
    → ip < 4294967296
    → port < 65536
    → IsAccepted (ip_words p)
    → IsAccepted (tcp_words p)
    → IsAccepted (ip_words (rewrite_dst p ip port))
      × IsAccepted (tcp_words (rewrite_dst p ip port))
      × IsAccepted (ip_words (rewrite_src p ip port))
      × IsAccepted (tcp_words (rewrite_src p ip port))
rewrites-IsAccepted p ip port w hi hp a b =
    let d = rewrite_dst p ip port in
    let s = rewrite_src p ip port in
    let wd = rewrite_dst-IsWide p ip port w hi hp in
    let ws = rewrite_src-IsWide p ip port w hi hp in
    let td = dst_totals p ip port w hi hp in
    let ts = src_totals p ip port w hi hp in
    (
      IsAccepted-same _ (ip_words d) (AreWords-ip p w) (AreWords-ip d wd) td.0
          (omega (arith, wd.ip_rest_pos)) a,
      IsAccepted-same _ (tcp_words d) (AreWords-tcp p w) (AreWords-tcp d wd) td.1
          (omega (arith, wd.tcp_rest_pos)) b,
      IsAccepted-same _ (ip_words s) (AreWords-ip p w) (AreWords-ip s ws) ts.0
          (omega (arith, ws.ip_rest_pos)) a,
      IsAccepted-same _ (tcp_words s) (AreWords-tcp p w) (AreWords-tcp s ws) ts.1
          (omega (arith, ws.tcp_rest_pos)) b,
    )
