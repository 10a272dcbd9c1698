-- ===== src/Ppp/Tests.antt =====
-- The theorems on main/ppp_link.c and main/sec_button.c at concrete inputs.
use vetera_bridge.Prelude.{
  ℕ, ◌+◌, ◌≡◌, refl, ◌≢◌, true, false, none, List, [], ◌∷◌, ◌++◌, All, codes, u32,
}
use vetera_bridge.Ppp.Names.{to_lower, starts_nocase, contains_nocase, matches_any, is_nosec_name}
use vetera_bridge.Ppp.Security.{on, auto}
use vetera_bridge.Ppp.Handshake.{has_flag, pre_ppp_handshake, feed}
use vetera_bridge.Ppp.Link.{Link, accept, is_secured, auto_decide, auto_begin, on_name}
use vetera_bridge.Ppp.Link.Handlers.{
  ppp_session_start, on_data, on_incoming, on_opened_channel, Event, incoming, remote_name, closed,
  opened, received, can_send, status, output, step, run, at_boot,
}
use vetera_bridge.Ppp.Link.Accept.{IsGranted, step-IsGranted}
use vetera_bridge.Ppp.Link.Session.{AreLegal, IsLink, run-IsLink}
use vetera_bridge.Ppp.Link.Transmit.{sent_in, queued_in, lost_in, sent_in-append-tx}
use vetera_bridge.Ppp.Handshake.Handoff.{feed_handoff}

-- The script's packets, then a packet with a flag byte.
abbrev dial_up : List (List ℕ)
dial_up = codes "CLIENT" ∷ codes "ATD*99#" ∷ (0x7e ∷ 0xff ∷ []) ∷ codes "AT" ∷ []

feed_handoff_example :
    feed (record { frame_seen = false; reply = none }) dial_up
    ≡ (0x7e ∷ 0xff ∷ []) ∷ codes "AT" ∷ []
unfolding has_flag
feed_handoff_example = feed_handoff (record { frame_seen = false; reply = none }) dial_up refl

-- A phone that tells a model name of S60 1st Edition is let in.
abbrev came_in : List Event
came_in = incoming 5 11 22 true ∷ []

step-IsGranted_example :
    All (IsGranted came_in (remote_name 22 0 (codes "Nokia7650"))) (accept 5 ∷ [])
unfolding run step on_incoming auto_begin on_name auto_decide is_secured is_nosec_name matches_any
    contains_nocase starts_nocase to_lower
step-IsGranted_example = step-IsGranted came_in (remote_name 22 0 (codes "Nokia7650"))

-- It is accepted, its channel opens, PPP comes up and puts out two bytes, which are sent.
abbrev whole_session : List Event
whole_session =
    incoming 5 11 22 true
    ∷ remote_name 22 0 (codes "Nokia7650")
    ∷ opened 5 11 true true
    ∷ received 5 (0x7e ∷ [])
    ∷ status 0
    ∷ output (1 ∷ 2 ∷ [])
    ∷ can_send 100 true
    ∷ closed 5
    ∷ []

whole_session-AreLegal : AreLegal (at_boot auto) whole_session
unfolding AreLegal step on_incoming auto_begin on_name auto_decide is_secured is_nosec_name
    matches_any contains_nocase starts_nocase to_lower on_opened_channel ppp_session_start on_data
    pre_ppp_handshake has_flag
whole_session-AreLegal =
    (five, (tt, ((five, refl, refl, refl), (tt, (refl, (tt, (tt, (five, tt))))))))
  where
    five : ◌≢◌ {A = ℕ} 5 0
    five e = cc

run-IsLink_example : IsLink (run (at_boot auto) whole_session)
run-IsLink_example = run-IsLink auto whole_session whole_session-AreLegal

abbrev online : Link
online = record (at_boot on) {
  session = true;
  active_cid = 5;
  ppp = true;
  script = record { frame_seen = true; reply = none };
  tx = 9 ∷ [];
}

-- The second chunk is refused.
abbrev two_outputs : List Event
two_outputs = output (1 ∷ 2 ∷ []) ∷ can_send 2 true ∷ can_send 2 false ∷ output (3 ∷ []) ∷ []

sent_in-append-tx_example :
    (sent_in online two_outputs ++ (run online two_outputs).tx
      ≡ (9 ∷ []) ++ queued_in online two_outputs)
    × (u32 (run online two_outputs).dropped ≡ u32 (0 + lost_in online two_outputs))
sent_in-append-tx_example =
    sent_in-append-tx two_outputs online (tt, (tt, (tt, (tt, tt)))) refl refl
