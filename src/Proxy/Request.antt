-- ===== src/Proxy/Request.antt =====
-- The request heads that main/http_proxy.c rewrites for the upstream proxy. A pointer into the head is
-- the list of the bytes from it; `ntoa` stands for lwIP's text of an address.
pub mod Heads
pub mod Structured
pub mod Bounds
mod Tests
use vetera_bridge.Prelude.{
  ℕ, zero, suc, ◌+◌, ◌-◌, Bool, false, ◌&&◌, ◌||◌, Option, none, some, List, [], ◌∷◌, ◌++◌, ltb,
  ◌==◌, if◌then◌else◌, length, take, drop, codes,
}
use vetera_bridge.Ppp.Names.{starts_nocase}
use vetera_bridge.Proxy.Sni.{host_ok, c_string}

-- `memchr`: the bytes before the first `c`, and those from it on.
unfoldable pub cut : ℕ → List ℕ → Option (List ℕ × List ℕ)
cut c [] = none
cut c (x ∷ xs) =
    if x == c
    then some ([], x ∷ xs)
    else elim (cut c xs) [ none ↦ none | some (before, from) ↦ some (x ∷ before, from) ]

abbrev pub is_crlf2 : List ℕ → Bool
is_crlf2 (a ∷ b ∷ c ∷ d ∷ _) = a == b'\r' && b == b'\n' && c == b'\r' && d == b'\n'
is_crlf2 _ = false

-- `find_crlf2`: the index of the first empty line.
unfoldable pub find_crlf2 : List ℕ → Option ℕ
find_crlf2 [] = none
find_crlf2 (x ∷ xs) =
    if is_crlf2 (x ∷ xs)
    then some 0
    else elim (find_crlf2 xs) [ none ↦ none | some i ↦ some (suc i) ]

-- `out_add`, where `out` holds the `w` bytes written so far.
unfoldable pub out_add : ℕ → List ℕ → List ℕ → Option (List ℕ)
out_add cap out s = if ltb cap (length out + length s) then none else some (out ++ s)

-- `ok = ok && out_add(…)`
abbrev pub then_add : ℕ → Option (List ℕ) → List ℕ → Option (List ℕ)
then_add cap none s = none
then_add cap (some out) s = out_add cap out s

unfoldable pub name_is : List ℕ → List ℕ → Bool
name_is s name = length name == length s && starts_nocase s name

abbrev pub is_blank : ℕ → Bool
is_blank b = b == b' ' || b == 9

unfoldable pub skip_start : List ℕ → List ℕ
skip_start [] = []
skip_start (b ∷ bs) = if is_blank b then skip_start bs else b ∷ bs

unfoldable pub skip_end : List ℕ → List ℕ
skip_end [] = []
skip_end (b ∷ bs) =
    let rest = skip_end bs in if length rest == 0 && is_blank b then [] else b ∷ rest

-- The line at the start of `rest`, what the second pass copies for it, and where the next one starts;
-- `last` is what follows `rest`, the final CRLF.
unfoldable pub next_line : List ℕ → List ℕ → List ℕ × List ℕ × List ℕ
next_line rest last = elim (cut b'\r' rest) [
  | none ↦ (rest, rest ++ last, [])
  | some (line, from) ↦ (line, line ++ take 2 (from ++ last), drop 2 from)
]

-- What the first pass does with one line; the buffer has `n` bytes.
unfoldable pub take_host : ℕ → List ℕ → List ℕ → List ℕ
take_host n line host = elim (cut b':' line) [
  | none ↦ host
  | some (name, from) ↦
      let v = skip_end (skip_start (drop 1 from)) in
      if name_is name (codes "host") && ltb (length v) n then c_string v else host
]

unfoldable pub host_pass : ℕ → List ℕ → List ℕ → ℕ → List ℕ → List ℕ
host_pass zero rest last n host = host
host_pass (suc fuel) rest last n host =
    let (line, _, next) = next_line rest last in
    let later = host_pass fuel next last n (take_host n line host) in
    if length rest == 0 then host else later

unfoldable pub is_dropped : List ℕ → Bool
is_dropped line = elim (cut b':' line) [
  | none ↦ false
  | some (name, _) ↦
      name_is name (codes "connection")
      || name_is name (codes "proxy-connection")
      || name_is name (codes "keep-alive")
]

unfoldable pub copy_pass : ℕ → ℕ → List ℕ → List ℕ → Option (List ℕ) → Option (List ℕ)
copy_pass zero cap rest last out = out
copy_pass (suc fuel) cap rest last none = none
copy_pass (suc fuel) cap rest last (some out) =
    let (line, copied, next) = next_line rest last in
    let kept = if is_dropped line then some out else out_add cap out copied in
    let later = copy_pass fuel cap next last kept in if length rest == 0 then some out else later

abbrev pub crlf : List ℕ
crlf = b'\r' ∷ b'\n' ∷ []

abbrev pub close_lines : List ℕ
close_lines =
    codes "Connection: close" ++ (crlf ++ (codes "Proxy-Connection: close" ++ (crlf ++ crlf)))

abbrev pub is_origin_form : List ℕ → Bool
is_origin_form [] = false
is_origin_form (c ∷ _) = c == b'/'

-- The method, the bytes of the line from the target on, the target, and the bytes from the end of
-- the line on.
unfoldable pub request_line : List ℕ → Option (List ℕ × List ℕ × List ℕ × List ℕ)
request_line head = elim (cut b'\r' head) [
  | none ↦ none
  | some (line, after) ↦ elim (cut b' ' line) [
    | none ↦ none
    | some (method, from) ↦ elim (cut b' ' (drop 1 from)) [
      | none ↦ none
      | some (target, _) ↦
          if length target == 0 then none else some (method, drop 1 from, target, after)
    ]
  ]
]

-- The bytes before the last two, and these.
unfoldable pub split_end : List ℕ → List ℕ × List ℕ
split_end xs = (take (length xs - 2) xs, drop (length xs - 2) xs)

module _ (ntoa : ℕ → List ℕ) where
  -- The host that was found, or the address that the phone connected to.
  unfoldable pub host_or_address : ℕ → List ℕ → List ℕ
  host_or_address orig_ip host = if host_ok host then host else ntoa orig_ip

  -- The request line is `method`, a space and `from_target`, with `ends` after it; then come the
  -- headers in `rest`, and `last`.
  unfoldable pub rewrite_line :
      ℕ → ℕ → ℕ → List ℕ → List ℕ → List ℕ → List ℕ → List ℕ → List ℕ → Option (List ℕ) × List ℕ
  rewrite_line orig_ip cap n method from_target target ends rest last =
      let host = host_or_address orig_ip (host_pass (length rest) rest last n []) in
      let ok = out_add cap [] (method ++ (b' ' ∷ [])) in
      let ok =
        if is_origin_form target
        then then_add cap (then_add cap ok (codes "http://")) host
        else ok in
      let ok = then_add cap ok (from_target ++ ends) in
      let ok = copy_pass (length rest) cap rest last ok in (then_add cap ok close_lines, host)

  -- `http_rewrite`: what is written to `out` of `cap` bytes, or none for -1, and then `host`, a buffer
  -- of `n` bytes that reads as `host` before.
  unfoldable pub http_rewrite : List ℕ → ℕ → ℕ → ℕ → List ℕ → Option (List ℕ) × List ℕ
  http_rewrite head orig_ip cap n host = elim (request_line head) [
    | none ↦ (none, host)
    | some (method, from_target, target, after) ↦
        let (rest, last) = split_end (drop 2 after) in
        rewrite_line orig_ip cap n method from_target target (take 2 after) rest last
  ]
