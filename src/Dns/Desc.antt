-- ===== src/Dns/Desc.antt =====
-- `dns_query_desc` of main/dns_fwd.c, which names a query for the verbose log. The caller's buffer
-- `name` is the list of its bytes, with what it held before.
pub mod Terminator
use vetera_bridge.Prelude.{
  ℕ, zero, suc, ◌+◌, ◌-◌, ◌*◌, bit_and, not, ◌&&◌, ◌||◌, List, [], ◌∷◌, ltb, leb, ◌==◌,
  if◌then◌else◌, length, set, take, drop,
}
use vetera_bridge.Dns.Reply.{byte_at}

pub record Desc : Type 0 where
  pub name : List ℕ
  pub qtype : ℕ  -- uint16

-- `(c > 32 && c < 127) ? c : '?'`
abbrev pub printable : ℕ → ℕ
printable c = if ltb 32 c && ltb c 127 then c else b'?'

-- The inner loop over the bytes of one label, from the write position `w`.
unfoldable pub put_chars : ℕ → List ℕ → ℕ → List ℕ → ℕ × List ℕ
put_chars nmax [] w name = (w, name)
put_chars nmax (c ∷ cs) w name =
    let rest = put_chars nmax cs (w + 1) (set name w (printable c)) in
    if ltb w (nmax - 1) then rest else (w, name)

-- How the loop over the labels is left: by its end or a `break`, or by the early `return`.
pub data Walk : Type 0 where
  ended : ℕ → ℕ → List ℕ → Walk
  malformed : List ℕ → Walk

-- `if (w && w < nmax - 1) name[w++] = '.'`
abbrev pub put_dot : ℕ → ℕ → List ℕ → ℕ × List ℕ
put_dot nmax w name = if ltb 0 w && ltb w (nmax - 1) then (w + 1, set name w b'.') else (w, name)

-- The loop over the labels; each round moves `off` on, so `qlen` rounds are enough.
unfoldable pub desc_loop : ℕ → List ℕ → ℕ → ℕ → ℕ → List ℕ → Walk
desc_loop zero q nmax off w name = ended off w name
desc_loop (suc fuel) q nmax off w name =
    let len = byte_at q off in
    let dotted = put_dot nmax w name in
    let put = put_chars nmax (take len (drop (off + 1) q)) dotted.0 dotted.1 in
    let rest = desc_loop fuel q nmax (off + (1 + len)) put.0 put.1 in
    if ltb off (length q)
    then if len == 0
      then ended (off + 1) w name
      else if not (bit_and len 0xc0 == 0) || ltb (length q) (off + 1 + len)
      then malformed name
      else rest
    else ended off w name

-- After the loop: the terminator, and the type where the query still has one.
unfoldable pub desc_of : List ℕ → Walk → Desc
desc_of q (ended off w name) = record {
  name = set name w 0;
  qtype = if leb (off + 2) (length q) then byte_at q off * 256 + byte_at q (off + 1) else 0;
}
desc_of q (malformed name) = record { name = name; qtype = 0 }

-- `dns_query_desc`
unfoldable pub query_desc : List ℕ → List ℕ → ℕ → Desc
query_desc q name nmax = desc_of q (desc_loop (length q) q nmax 12 0 (set name 0 0))
