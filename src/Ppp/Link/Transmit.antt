-- ===== src/Ppp/Link/Transmit.antt =====
-- What main/ppp_link.c sends to the phone, in one session.
use vetera_bridge.Prelude.{
  ℕ, ◌+◌, ◌-◌, ◌≡◌, sym, ap, ◌∙◌, Bool, true, ◌&&◌, none, List, [], ◌∷◌, ◌++◌, append-nil,
  append_assoc, arith, ltb, if◌then◌else◌, length, take, All, take-append-drop, u32,
}
use vetera_bridge.Ppp.Handshake.{pre_ppp_handshake}
use vetera_bridge.Ppp.Link.{
  Link, Act, rfcomm_send, auto_release, auto_fail, is_secured, auto_decide, auto_begin, on_name,
  on_security,
}
use vetera_bridge.Ppp.Link.Handlers.{
  ppp_status, ppp_close, ppp_session_stop, on_data, on_incoming, on_open_failed, chunk_size,
  send_reply, send_chunk, on_can_send, on_closed_channel, ppp_output, tx_notify, Event, incoming,
  remote_name, security_level, open_failed, closed, opened, received, can_send, status, output,
  notified, step, run,
}

-- The bytes that a step hands to `rfcomm_send`.
unfoldable pub sent_by : List Act → List ℕ
sent_by [] = []
sent_by (rfcomm_send cid bytes ∷ acts) = bytes ++ sent_by acts
sent_by (_ ∷ acts) = sent_by acts

unfoldable pub sent_in : Link → List Event → List ℕ
sent_in l [] = []
sent_in l (e ∷ es) = sent_by (step l e).1 ++ sent_in (step l e).0 es

-- What PPP puts out in a session, as far as the stream buffer has room for it.
abbrev pub queued_by : Link → Event → List ℕ
queued_by l (output bytes) = if l.session then take (8192 - length l.tx) bytes else []
queued_by l _ = []

unfoldable pub queued_in : Link → List Event → List ℕ
queued_in l [] = []
queued_in l (e ∷ es) = queued_by l e ++ queued_in (step l e).0 es

-- No new channel is opened.
abbrev pub IsSameChannel : Event → Type 0
IsSameChannel (opened cid handle created listening) = ⊥
IsSameChannel _ = Unit

-- The dial-up script is over.
abbrev IsOver : Link → Type 0
IsOver l = (l.script.frame_seen ≡ true) × (l.script.reply ≡ none)

abbrev Balance : Link → Event → Type 0
Balance l e =
    IsOver (step l e).0 × (sent_by (step l e).1 ++ (step l e).0.tx ≡ l.tx ++ queued_by l e)

incoming-Balance :
    (l : Link) (cid handle addr : ℕ) (asked : Bool)
    → IsOver l
    → Balance l (incoming cid handle addr asked)
unfolding step on_incoming auto_begin auto_decide is_secured sent_by
incoming-Balance l cid handle addr asked h = ground (arith, append-nil l.tx)

name-Balance :
    (l : Link) (addr st : ℕ) (name : List ℕ) → IsOver l → Balance l (remote_name addr st name)
unfolding step on_name auto_decide sent_by
name-Balance l addr st name h = ground (arith, append-nil l.tx)

security-Balance :
    (l : Link) (handle st level : ℕ) → IsOver l → Balance l (security_level handle st level)
unfolding step on_security auto_fail auto_release sent_by
security-Balance l handle st level h = ground (arith, append-nil l.tx)

open_failed-Balance : (l : Link) (cid : ℕ) → IsOver l → Balance l (open_failed cid)
unfolding step on_open_failed auto_release sent_by
open_failed-Balance l cid h = ground (arith, append-nil l.tx)

closed-Balance : (l : Link) (cid : ℕ) → IsOver l → Balance l (closed cid)
unfolding step on_closed_channel ppp_session_stop ppp_close ppp_status auto_release sent_by
closed-Balance l cid h = ground (arith, append-nil l.tx)

received-Balance :
    (l : Link) (channel : ℕ) (pkt : List ℕ) → IsOver l → Balance l (received channel pkt)
unfolding step on_data pre_ppp_handshake sent_by
received-Balance l channel pkt h = ground (arith, append-nil l.tx)

can_send-Balance : (l : Link) (mfs : ℕ) (sent : Bool) → IsOver l → Balance l (can_send mfs sent)
unfolding step on_can_send send_reply send_chunk sent_by
can_send-Balance l mfs sent h = ground (
  arith,
  append-nil l.tx,
  append-nil (take (chunk_size mfs) l.tx),
  take-append-drop (chunk_size mfs) l.tx,
)

status-Balance : (l : Link) (err : ℕ) → IsOver l → Balance l (status err)
unfolding step ppp_status sent_by
status-Balance l err h = ground (arith, append-nil l.tx)

output-Balance : (l : Link) (bytes : List ℕ) → IsOver l → Balance l (output bytes)
unfolding step ppp_output sent_by
output-Balance l bytes h = ground (arith, append-nil l.tx)

notified-Balance : (l : Link) → IsOver l → Balance l notified
unfolding step tx_notify sent_by
notified-Balance l h = ground (arith, append-nil l.tx)

step-Balance : (l : Link) (e : Event) → IsSameChannel e → IsOver l → Balance l e
step-Balance l (incoming cid handle addr asked) c h = incoming-Balance l cid handle addr asked h
step-Balance l (remote_name addr st name) c h = name-Balance l addr st name h
step-Balance l (security_level handle st level) c h = security-Balance l handle st level h
step-Balance l (open_failed cid) c h = open_failed-Balance l cid h
step-Balance l (closed cid) c h = closed-Balance l cid h
step-Balance l (opened cid handle created listening) c h = absurd c
step-Balance l (received channel pkt) c h = received-Balance l channel pkt h
step-Balance l (can_send mfs sent) c h = can_send-Balance l mfs sent h
step-Balance l (status err) c h = status-Balance l err h
step-Balance l (output bytes) c h = output-Balance l bytes h
step-Balance l notified c h = notified-Balance l h

run-Balance :
    (es : List Event) (l : Link)
    → All IsSameChannel es
    → l.script.frame_seen ≡ true
    → l.script.reply ≡ none
    → sent_in l es ++ (run l es).tx ≡ l.tx ++ queued_in l es
unfolding sent_in queued_in run
run-Balance [] l c seen over = sym (append-nil l.tx)
run-Balance (e ∷ es) l c seen over =
    let l' = (step l e).0 in
    let (h, same) = step-Balance l e c.0 (seen, over) in
    let rest = run-Balance es l' c.1 h.0 h.1 in
    append_assoc (sent_by (step l e).1) (sent_in l' es) (run l' es).tx
    ∙ ap (λ x. sent_by (step l e).1 ++ x) rest
    ∙ sym (append_assoc (sent_by (step l e).1) l'.tx (queued_in l' es))
    ∙ ap (λ x. x ++ queued_in l' es) same
    ∙ append_assoc l.tx (queued_by l e) (queued_in l' es)

-- The chunks that a step hands to `rfcomm_send`.
unfoldable pub chunks_of : List Act → ℕ
chunks_of [] = 0
chunks_of (rfcomm_send cid bytes ∷ acts) = 1 + chunks_of acts
chunks_of (_ ∷ acts) = chunks_of acts

-- What is lost of the stream: a chunk that RFCOMM refuses, and an output that the buffer has no room for.
abbrev pub lost_by : Link → Event → ℕ
lost_by l (can_send mfs sent) = if sent then 0 else chunks_of (step l (can_send mfs sent)).1
lost_by l (output bytes) = if l.session && ltb (8192 - length l.tx) (length bytes) then 1 else 0
lost_by l _ = 0

unfoldable pub lost_in : Link → List Event → ℕ
lost_in l [] = 0
lost_in l (e ∷ es) = lost_by l e + lost_in (step l e).0 es

abbrev Counted : Link → Event → Type 0
Counted l e = u32 (step l e).0.dropped ≡ u32 (l.dropped + lost_by l e)

incoming-Counted :
    (l : Link) (cid handle addr : ℕ) (asked : Bool) → Counted l (incoming cid handle addr asked)
unfolding step on_incoming auto_begin auto_decide is_secured
incoming-Counted l cid handle addr asked = ground arith

name-Counted : (l : Link) (addr st : ℕ) (name : List ℕ) → Counted l (remote_name addr st name)
unfolding step on_name auto_decide
name-Counted l addr st name = ground arith

security-Counted : (l : Link) (handle st level : ℕ) → Counted l (security_level handle st level)
unfolding step on_security auto_fail auto_release
security-Counted l handle st level = ground arith

open_failed-Counted : (l : Link) (cid : ℕ) → Counted l (open_failed cid)
unfolding step on_open_failed auto_release
open_failed-Counted l cid = ground arith

closed-Counted : (l : Link) (cid : ℕ) → Counted l (closed cid)
unfolding step on_closed_channel ppp_session_stop ppp_close ppp_status auto_release
closed-Counted l cid = ground arith

received-Counted : (l : Link) (channel : ℕ) (pkt : List ℕ) → Counted l (received channel pkt)
unfolding step on_data
received-Counted l channel pkt = ground arith

can_send-Counted : (l : Link) (mfs : ℕ) (sent : Bool) → IsOver l → Counted l (can_send mfs sent)
unfolding step on_can_send send_reply send_chunk chunks_of
can_send-Counted l mfs sent h = ground (arith, h)

status-Counted : (l : Link) (err : ℕ) → Counted l (status err)
unfolding step ppp_status
status-Counted l err = ground arith

output-Counted : (l : Link) (bytes : List ℕ) → Counted l (output bytes)
unfolding step ppp_output
output-Counted l bytes = ground arith

step-Counted : (l : Link) (e : Event) → IsSameChannel e → IsOver l → Counted l e
unfolding step tx_notify
step-Counted l (incoming cid handle addr asked) c h = incoming-Counted l cid handle addr asked
step-Counted l (remote_name addr st name) c h = name-Counted l addr st name
step-Counted l (security_level handle st level) c h = security-Counted l handle st level
step-Counted l (open_failed cid) c h = open_failed-Counted l cid
step-Counted l (closed cid) c h = closed-Counted l cid
step-Counted l (opened cid handle created listening) c h = absurd c
step-Counted l (received channel pkt) c h = received-Counted l channel pkt
step-Counted l (can_send mfs sent) c h = can_send-Counted l mfs sent h
step-Counted l (status err) c h = status-Counted l err
step-Counted l (output bytes) c h = output-Counted l bytes
step-Counted l notified c h = omega arith

run-Counted :
    (es : List Event) (l : Link)
    → All IsSameChannel es
    → IsOver l
    → u32 (run l es).dropped ≡ u32 (l.dropped + lost_in l es)
unfolding lost_in run
run-Counted [] l c h = omega arith
run-Counted (e ∷ es) l c h =
    let once = step-Counted l e c.0 h in
    let rest = run-Counted es (step l e).0 c.1 (step-Balance l e c.0 h).0 in
    omega (arith, once, rest)

-- Once the dial-up script is over, and until a new channel is opened: what was handed to `rfcomm_send`,
-- whether it was taken or refused, and what still waits in the stream buffer, is what waited at first and
-- then what PPP put out while there was a session, in order and as far as the buffer had room for it.
-- Each output that is cut, and each chunk that is refused and so lost, adds one to the count of drops, a
-- uint32; an output without a session is lost and not counted.
pub sent_in-append-tx :
    (es : List Event) (l : Link)
    → All IsSameChannel es
    → l.script.frame_seen ≡ true
    → l.script.reply ≡ none
    → (sent_in l es ++ (run l es).tx ≡ l.tx ++ queued_in l es)
      × (u32 (run l es).dropped ≡ u32 (l.dropped + lost_in l es))
sent_in-append-tx es l c seen over = (run-Balance es l c seen over, run-Counted es l c (seen, over))
