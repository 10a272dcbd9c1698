-- ===== src/Ppp/Handshake/Handoff.antt =====
-- The hand-over from the dial-up script to PPP (main/ppp_link.c).
use vetera_bridge.Prelude.{
  ℕ, ◌≡◌, refl, ap, inl, inr, true, false, List, [], ◌∷◌, arith, if◌then◌else◌, Bool-cases,
}
use vetera_bridge.Ppp.Handshake.{Script, has_flag, pre_ppp_handshake, feed}

-- The packets from the first one with an HDLC flag on.
abbrev pub from_flag : List (List ℕ) → List (List ℕ)
from_flag [] = []
from_flag (p ∷ ps) = if has_flag p then p ∷ ps else from_flag ps

handshake_seen :
    (s : Script) (p : List ℕ) → s.frame_seen ≡ true → pre_ppp_handshake s p ≡ (s, false, false)
unfolding pre_ppp_handshake
handshake_seen s p h = ground arith

handshake_flag :
    (s : Script) (p : List ℕ)
    → s.frame_seen ≡ false
    → has_flag p ≡ true
    → pre_ppp_handshake s p ≡ (record s { frame_seen = true }, false, false)
unfolding pre_ppp_handshake
handshake_flag s p h t = ground arith

handshake_script :
    (s : Script) (p : List ℕ)
    → s.frame_seen ≡ false
    → has_flag p ≡ false
    → ((pre_ppp_handshake s p).0.frame_seen ≡ false) × ((pre_ppp_handshake s p).1 ≡ true)
unfolding pre_ppp_handshake
handshake_script s p h t = ground arith

feed_seen : (s : Script) (ps : List (List ℕ)) → s.frame_seen ≡ true → feed s ps ≡ ps
unfolding feed
feed_seen s [] h = refl
feed_seen s (p ∷ ps) h = rw (handshake_seen s p h) (ap (λ l. p ∷ l) (feed_seen s ps h))

-- In a session that has seen no flag byte yet, PPP is given every packet from the first one that
-- has a flag byte on, unchanged and in order, and none of the dial-up script's packets before it,
-- whatever they hold.
pub feed_handoff :
    (s : Script) (ps : List (List ℕ)) → s.frame_seen ≡ false → feed s ps ≡ from_flag ps
unfolding feed
feed_handoff s [] h = refl
feed_handoff s (p ∷ ps) h = elim (Bool-cases (has_flag p)) [
  | inl t ↦ rw (handshake_flag s p h t, t) (ap (λ l. p ∷ l) (feed_seen _ ps refl))
  | inr f ↦
      let (unseen, taken) = handshake_script s p h f in
      rw (taken, f) (feed_handoff (pre_ppp_handshake s p).0 ps unseen)
]
