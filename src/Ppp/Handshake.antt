-- ===== src/Ppp/Handshake.antt =====
-- The dial-up script that main/ppp_link.c answers before PPP starts.
pub mod Handoff
use Prim.Native.String.{String}
use vetera_bridge.Prelude.{
  ℕ, Bool, true, false, ◌&&◌, ◌||◌, Option, none, some, List, [], ◌∷◌, ◌++◌, map, ltb, leb, ◌==◌,
  if◌then◌else◌, take, codes,
}

-- `ppp_frame_seen` and `pre_ppp_reply`
pub record Script : Type 0 where
  pub frame_seen : Bool
  pub reply : Option (List ℕ)

-- `memchr(pkt, 0x7E, size) != NULL`
unfoldable pub has_flag : List ℕ → Bool
has_flag [] = false
has_flag (b ∷ bs) = b == 0x7e || has_flag bs

-- The first 40 bytes, with what cannot be printed as a dot.
abbrev pub printed : ℕ → ℕ
printed b = if leb 0x20 b && ltb b 0x7f then b else b'.'

abbrev pub script_text : List ℕ → List ℕ
script_text pkt = map printed (take 40 pkt)

unfoldable pub starts_with : List ℕ → List ℕ → Bool
starts_with text [] = true
starts_with [] (n ∷ ns) = false
starts_with (t ∷ ts) (n ∷ ns) = t == n && starts_with ts ns

-- `strstr(text, needle) != NULL`
unfoldable pub contains : List ℕ → List ℕ → Bool
contains [] needle = starts_with [] needle
contains (t ∷ ts) needle = starts_with (t ∷ ts) needle || contains ts needle

abbrev pub crlf : List ℕ
crlf = 13 ∷ 10 ∷ []

-- The reply that the phone's script waits for, or what was pending.
unfoldable pub answer : List ℕ → Option (List ℕ) → Option (List ℕ)
answer text pending =
    if contains text (codes "CLIENT")
    then some (codes "CLIENTSERVER")
    else if contains text (codes "ATD")
    then some (crlf ++ (codes "CONNECT 115200" ++ crlf))
    else if contains text (codes "AT")
    then some (crlf ++ (codes "OK" ++ crlf))
    else pending

-- `pre_ppp_handshake`: whether the packet was consumed, and whether a send was asked for.
unfoldable pub pre_ppp_handshake : Script → List ℕ → Script × Bool × Bool
pre_ppp_handshake s pkt =
    let reply = answer (script_text pkt) s.reply in
    if s.frame_seen
    then (s, false, false)
    else if has_flag pkt
    then (record s { frame_seen = true }, false, false)
    else (record s { reply = reply }, true, elim reply [ none ↦ false | some _ ↦ true ])

-- The packets of one session, in order: what goes to PPP.
unfoldable pub feed : Script → List (List ℕ) → List (List ℕ)
feed s [] = []
feed s (p ∷ ps) =
    let (s', consumed, ask) = pre_ppp_handshake s p in
    if consumed then feed s' ps else p ∷ feed s' ps
