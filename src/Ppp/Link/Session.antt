-- ===== src/Ppp/Link/Session.antt =====
-- The session's variables of main/ppp_link.c agree with each other, whatever BTstack and lwIP
-- report in an order that they can report it in.
use vetera_bridge.Prelude.{
  ℕ, ◌-◌, ◌≤◌, ◌≡◌, ◌≢◌, Bool, true, false, List, [], ◌∷◌, arith, length, take, length-append,
  length-take, length-drop,
}
use vetera_bridge.Ppp.Security.{SecMode}
use vetera_bridge.Ppp.Link.{
  Link, auto_release, auto_fail, is_secured, auto_decide, auto_begin, on_name, on_security,
}
use vetera_bridge.Ppp.Link.Handlers.{
  ppp_status, ppp_close, ppp_session_start, ppp_session_stop, on_data, on_incoming, on_open_failed,
  on_opened_channel, chunk_size, send_reply, send_chunk, on_can_send, on_closed_channel, ppp_output,
  tx_notify, Event, incoming, remote_name, security_level, open_failed, closed, opened, received,
  can_send, status, output, notified, step, run, at_boot,
}

-- What BTstack and lwIP promise: channels have ids that are not 0; a channel is opened once, after
-- its accept, and fails to open only before that; lwIP reports on a PPP session that exists.
abbrev pub IsLegal : Link → Event → Type 0
IsLegal l (incoming cid handle addr asked) = cid ≢ 0
IsLegal l (open_failed cid) = (cid ≢ 0) × (cid ≡ l.active_cid → l.ppp ≡ false)
IsLegal l (closed cid) = cid ≢ 0
IsLegal l (opened cid handle created listening) =
    (cid ≢ 0) × (cid ≡ l.active_cid) × (l.auto_cid ≡ 0) × (l.ppp ≡ false)
IsLegal l (status err) = l.ppp ≡ true
IsLegal l _ = Unit

unfoldable pub AreLegal : Link → List Event → Type 0
AreLegal l [] = Unit
AreLegal l (e ∷ es) = IsLegal l e × AreLegal (step l e).0 es

pub record IsLink (l : Link) : Type 0 where
  pub no_session : l.session ≡ false → l.active_cid ≡ 0
  pub in_session : l.session ≡ true → l.active_cid ≢ 0
  pub no_ppp : l.session ≡ false → l.ppp ≡ false
  pub held_is_active : l.auto_cid ≢ 0 → l.auto_cid ≡ l.active_cid
  pub held_is_closed : l.auto_cid ≢ 0 → l.ppp ≡ false
  pub pending_is_held : l.sec_pending ≡ true → l.auto_cid ≢ 0
  pub up_has_ppp : l.ppp_up ≡ true → l.ppp ≡ true
  pub no_teardown : l.teardown ≡ false
  pub tx_fits : length l.tx ≤ 8192

on_incoming-IsLink :
    (l : Link) (cid handle addr : ℕ) (asked : Bool)
    → cid ≢ 0
    → IsLink l
    → IsLink (on_incoming l cid handle addr asked).0
unfolding on_incoming auto_begin auto_decide is_secured
on_incoming-IsLink l cid handle addr asked c k = ground (arith, k)

on_name-IsLink :
    (l : Link) (addr st : ℕ) (name : List ℕ) → IsLink l → IsLink (on_name l addr st name).0
unfolding on_name auto_decide
on_name-IsLink l addr st name k = ground (arith, k)

on_security-IsLink :
    (l : Link) (handle st level : ℕ) → IsLink l → IsLink (on_security l handle st level).0
unfolding on_security auto_fail auto_release
on_security-IsLink l handle st level k = ground (arith, k)

on_open_failed-IsLink :
    (l : Link) (cid : ℕ)
    → (cid ≢ 0) × (cid ≡ l.active_cid → l.ppp ≡ false)
    → IsLink l
    → IsLink (on_open_failed l cid).0
unfolding on_open_failed auto_release
on_open_failed-IsLink l cid c k = ground (arith, k)

on_opened_channel-IsLink :
    (l : Link) (cid handle : ℕ) (created listening : Bool)
    → (cid ≢ 0) × (cid ≡ l.active_cid) × (l.auto_cid ≡ 0) × (l.ppp ≡ false)
    → IsLink l
    → IsLink (on_opened_channel l cid handle created listening).0
unfolding on_opened_channel ppp_session_start ppp_close ppp_status
on_opened_channel-IsLink l cid handle created listening c k = ground (arith, k)

on_closed_channel-IsLink :
    (l : Link) (cid : ℕ) → cid ≢ 0 → IsLink l → IsLink (on_closed_channel l cid).0
unfolding on_closed_channel ppp_session_stop ppp_close ppp_status auto_release
on_closed_channel-IsLink l cid c k = ground (arith, k)

on_data-IsLink :
    (l : Link) (channel : ℕ) (pkt : List ℕ) → IsLink l → IsLink (on_data l channel pkt).0
unfolding on_data
on_data-IsLink l channel pkt k = ground (arith, k)

on_can_send-IsLink :
    (l : Link) (mfs : ℕ) (sent : Bool) → IsLink l → IsLink (on_can_send l mfs sent).0
unfolding on_can_send send_reply send_chunk
on_can_send-IsLink l mfs sent k = ground (arith, k, length-drop (chunk_size mfs) l.tx)

ppp_status-IsLink : (l : Link) (err : ℕ) → l.ppp ≡ true → IsLink l → IsLink (ppp_status l err).0
unfolding ppp_status
ppp_status-IsLink l err c k = ground (arith, k)

ppp_output-IsLink : (l : Link) (bytes : List ℕ) → IsLink l → IsLink (ppp_output l bytes).0
unfolding ppp_output
ppp_output-IsLink l bytes k =
    let room = 8192 - length l.tx in
    ground (arith, k, length-append l.tx (take room bytes), length-take room bytes)

step-IsLink : (l : Link) (e : Event) → IsLegal l e → IsLink l → IsLink (step l e).0
unfolding step tx_notify
step-IsLink l (incoming cid handle addr asked) c k = on_incoming-IsLink l cid handle addr asked c k
step-IsLink l (remote_name addr st name) c k = on_name-IsLink l addr st name k
step-IsLink l (security_level handle st level) c k = on_security-IsLink l handle st level k
step-IsLink l (open_failed cid) c k = on_open_failed-IsLink l cid c k
step-IsLink l (closed cid) c k = on_closed_channel-IsLink l cid c k
step-IsLink l (opened cid handle created listening) c k =
    on_opened_channel-IsLink l cid handle created listening c k
step-IsLink l (received channel pkt) c k = on_data-IsLink l channel pkt k
step-IsLink l (can_send mfs sent) c k = on_can_send-IsLink l mfs sent k
step-IsLink l (status err) c k = ppp_status-IsLink l err c k
step-IsLink l (output bytes) c k = ppp_output-IsLink l bytes k
step-IsLink l notified c k = ground (arith, k)

steps-IsLink : (es : List Event) (l : Link) → AreLegal l es → IsLink l → IsLink (run l es)
unfolding run AreLegal
steps-IsLink [] l c k = k
steps-IsLink (e ∷ es) l c k = steps-IsLink es (step l e).0 c.1 (step-IsLink l e c.0 k)

at_boot-IsLink : (m : SecMode) → IsLink (at_boot m)
at_boot-IsLink m = ground arith

-- From boot on, in any mode, and as long as BTstack and lwIP keep what they promise: there is a
-- session exactly if a channel's id is set; a channel that is held is that channel, and PPP waits
-- for it; PPP exists only in a session and is up only if it exists; a security request is pending
-- only for a held channel; no teardown is left unfinished; and the bytes that wait to be sent fit
-- the stream buffer's 8192 bytes.
pub run-IsLink :
    (m : SecMode) (es : List Event) → AreLegal (at_boot m) es → IsLink (run (at_boot m) es)
run-IsLink m es c = steps-IsLink es (at_boot m) c (at_boot-IsLink m)
