-- ===== src/Proxy/Sni.antt =====
-- The server name of a TLS ClientHello in main/http_proxy.c. Every read of the buffer is checked: a
-- read past its `n` bytes is a fault.
pub mod Safe
pub mod Fuel
use vetera_bridge.Prelude.{
  ℕ, zero, suc, ◌+◌, ◌*◌, Bool, true, not, ◌&&◌, ◌||◌, none, some, List, [], ◌∷◌, ltb, leb, ◌==◌,
  if◌then◌else◌, length, get_elem?, take, drop,
}

-- `fault` is a read out of bounds.
pub data Found : Type 0 where
  fault absent : Found
  named : List ℕ → Found

-- `host_ok`
abbrev pub is_host_byte : ℕ → Bool
is_host_byte c =
    (leb b'a' c && leb c b'z')
    || (leb b'A' c && leb c b'Z')
    || (leb b'0' c && leb c b'9')
    || c == b'.'
    || c == b'-'
    || c == b'_'
    || c == b':'
    || c == b'['
    || c == b']'

unfoldable pub all_host_bytes : List ℕ → Bool
all_host_bytes [] = true
all_host_bytes (c ∷ cs) = is_host_byte c && all_host_bytes cs

unfoldable pub host_ok : List ℕ → Bool
host_ok h = not (length h == 0) && all_host_bytes h

-- A C string ends at its first NUL.
unfoldable pub c_string : List ℕ → List ℕ
c_string [] = []
c_string (c ∷ cs) = if c == 0 then [] else c ∷ c_string cs

-- `b[p]`, and what is done with it.
abbrev pub with_byte : List ℕ → ℕ → (ℕ → Found) → Found
with_byte b p f = elim (get_elem? b p) [ none ↦ fault | some x ↦ f x ]

-- `(b[p] << 8) | b[p + 1]`
abbrev pub with_word : List ℕ → ℕ → (ℕ → Found) → Found
with_word b p f = with_byte b p (λ hi. with_byte b (p + 1) (λ lo. f (hi * 256 + lo)))

-- `memcpy(out, b + q, nl)`
abbrev pub copy_name : List ℕ → ℕ → ℕ → Found
copy_name b q nl =
    let name = c_string (take nl (drop q b)) in
    if ltb (length b) (q + nl) then fault else if host_ok name then named name else absent

-- The loop over the names of the extension, up to `qe`; each round moves on by three bytes or more.
unfoldable pub name_loop : ℕ → List ℕ → ℕ → ℕ → ℕ → Found
name_loop zero b on q qe = absent
name_loop (suc fuel) b on q qe =
    if leb (q + 3) qe
    then with_byte b q (λ nt. with_word b (q + 1) (λ nl.
      let rest = name_loop fuel b on (q + 3 + nl) qe in
      if ltb qe (q + 3 + nl)
      then absent
      else if nt == 0 && ltb 0 nl && ltb nl on
      then copy_name b (q + 3) nl
      else rest))
    else absent

-- The loop over the extensions, up to `ext_end`; each round moves on by four bytes or more.
unfoldable pub ext_loop : ℕ → List ℕ → ℕ → ℕ → ℕ → Found
ext_loop zero b on p ext_end = absent
ext_loop (suc fuel) b on p ext_end =
    if leb (p + 4) ext_end
    then with_word b p (λ type. with_word b (p + 2) (λ len.
      let rest = ext_loop fuel b on (p + 4 + len) ext_end in
      if ltb ext_end (p + 4 + len)
      then absent
      else if type == 0
      then name_loop (length b) b on (p + 4 + 2) (p + 4 + len)
      else rest))
    else absent

abbrev pub least : ℕ → ℕ → ℕ
least a b = if ltb b a then b else a

-- A field of one or two length bytes at `p`, and where the next one starts.
unfoldable pub skip8 : List ℕ → ℕ → ℕ → (ℕ → Found) → Found
skip8 b end p f = if ltb end (p + 1) then absent else with_byte b p (λ x. f (p + (1 + x)))

unfoldable pub skip16 : List ℕ → ℕ → ℕ → (ℕ → Found) → Found
skip16 b end p f = if ltb end (p + 2) then absent else with_word b p (λ x. f (p + (2 + x)))

unfoldable pub hello_body : List ℕ → ℕ → ℕ → Found
hello_body b on end = skip8 b end (5 + 38) (λ p. skip16 b end p (λ p.
    skip8 b end p (λ p. skip16 b end p (λ q. ext_loop (length b) b on (p + 2) (least q end)))))

-- `tls_sni`, with `out` of `on` bytes.
unfoldable pub tls_sni : List ℕ → ℕ → Found
tls_sni b on =
    if ltb (length b) 5
    then absent
    else with_byte b 0 (λ kind.
      if not (kind == 0x16)
      then absent
      else with_word b 3 (λ len.
        let end = least (5 + len) (length b) in
        if ltb end (5 + 4)
        then absent
        else with_byte b 5 (λ hello. if hello == 0x01 then hello_body b on end else absent)))
