-- ===== src/Dns/Reply.antt =====
-- The replies that main/dns_fwd.c makes by itself: the captive answer, NXDOMAIN and SERVFAIL. A
-- buffer with its length is the list of its bytes; a function that returns 0 for "no reply" returns
-- the empty list.
pub mod Names
pub mod Captive
pub mod Sizes
use vetera_bridge.Prelude.{
  ℕ, zero, suc, ◌+◌, ◌-◌, ◌*◌, bit_and, ◌&&◌, ◌||◌, List, [], ◌∷◌, ◌++◌, ltb, leb, ◌==◌,
  if◌then◌else◌, length, get_or, take, drop,
}

abbrev pub gw_ip : List ℕ
gw_ip = 192 ∷ 168 ∷ 7 ∷ 1 ∷ []

-- `query[off]`; the code reads only below `qlen`.
abbrev pub byte_at : List ℕ → ℕ → ℕ
byte_at q off = get_or q off 0

-- `(query[off] << 8) | query[off + 1]`
abbrev pub word_at : List ℕ → ℕ → ℕ
word_at q off = byte_at q off * 256 + byte_at q (off + 1)

-- The walk over the labels of the question's name, from `off`. Each round moves `off` on, so
-- `qlen` rounds are enough.
unfoldable pub skip_name : ℕ → List ℕ → ℕ → ℕ
skip_name zero q off = off
skip_name (suc fuel) q off =
    let len = byte_at q off in
    let rest = skip_name fuel q (off + (1 + len)) in
    if ltb off (length q - 4)
    then if len == 0 then off + 1 else if bit_and len 0xc0 == 0xc0 then off + 2 else rest
    else off

-- Twelve bytes: the id of the query, the flags with the response code, one question and
-- `ancount` answers.
abbrev pub header : List ℕ → ℕ → ℕ → List ℕ
header q rcode ancount =
    byte_at q 0 ∷ byte_at q 1 ∷ 0x81 ∷ (0x80 + rcode) ∷ 0 ∷ 1 ∷ 0 ∷ ancount ∷ 0 ∷ 0 ∷ 0 ∷ 0 ∷ []

-- What follows the header in the first 200 bytes of the query.
abbrev pub qsection : List ℕ → List ℕ
qsection q = drop 12 (take 200 q)

unfoldable pub with_question : List ℕ → List ℕ → ℕ → List ℕ
with_question head qs rmax =
    if ltb 0 (length qs) && leb (12 + length qs) rmax then head ++ qs else head

-- A reply without answers: the header, and the question where it fits.
unfoldable pub no_answer : List ℕ → ℕ → ℕ → List ℕ
no_answer q rcode rmax = with_question (header q rcode 0) (qsection q) rmax

-- An A record for the name at offset 12, with a TTL of 60 seconds.
abbrev pub gateway_record : List ℕ
gateway_record = 0xc0 ∷ 0x0c ∷ 0 ∷ 1 ∷ 0 ∷ 1 ∷ 0 ∷ 0 ∷ 0 ∷ 0x3c ∷ 0 ∷ 4 ∷ gw_ip

unfoldable pub with_answer : List ℕ → List ℕ → ℕ → List ℕ
with_answer head qs rmax =
    if length qs == 0 || ltb rmax (12 + length qs + 16) then [] else head ++ (qs ++ gateway_record)

unfoldable pub gateway_answer : List ℕ → ℕ → List ℕ
gateway_answer q rmax = with_answer (header q 0 1) (qsection q) rmax

-- `dns_make_captive_reply`
unfoldable pub make_captive_reply : List ℕ → ℕ → List ℕ
make_captive_reply q rmax =
    let off = skip_name (length q) q 12 in
    if ltb (length q) 12 || ltb rmax 28
    then []
    else if ltb (length q) (off + 4)
    then []
    else if word_at q off == 1
    then gateway_answer q rmax
    else no_answer q 3 rmax

-- `dns_make_servfail_reply`
unfoldable pub make_servfail_reply : List ℕ → ℕ → List ℕ
make_servfail_reply q rmax = if ltb (length q) 12 || ltb rmax 12 then [] else no_answer q 2 rmax
