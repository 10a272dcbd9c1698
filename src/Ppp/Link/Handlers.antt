-- ===== src/Ppp/Link/Handlers.antt =====
-- The RFCOMM, PPP and transmit handlers of main/ppp_link.c, and one step of the whole module.
use vetera_bridge.Prelude.{
  ℕ, ◌+◌, ◌-◌, Bool, true, false, not, ◌&&◌, ◌||◌, none, some, List, [], ◌∷◌, ◌++◌, ltb, ◌==◌,
  if◌then◌else◌, length, take, drop, u32,
}
use vetera_bridge.Ppp.Security.{SecMode, auto}
use vetera_bridge.Ppp.Handshake.{pre_ppp_handshake}
use vetera_bridge.Ppp.Link.{
  ppp_tx_buf_size, ppp_tx_chunk_max, Link, accept, decline, disconnect, ask_send, rfcomm_send,
  to_ppp, attach_proxy, free_pcb, relisten, notify, update_nat, on_opened, on_closed, on_ppp_up,
  on_ppp_down, Result, after, end_session, auto_release, auto_begin, on_name, on_security,
}

-- `ppp_status_cb`, with `PPPERR_NONE` as 0.
unfoldable pub ppp_status : Link → ℕ → Result
ppp_status l err = if err == 0 then (record l { ppp_up = true }, update_nat ∷ on_ppp_up ∷ []) else (
  record l { ppp_up = false },
  update_nat
      ∷ on_ppp_down
      ∷ (if l.teardown then free_pcb ∷ [] else if l.session then relisten ∷ [] else []),
)

-- A deliberate `pppapi_close`: it runs the status callback, with an error, before it returns.
unfoldable pub ppp_close : Link → Result
ppp_close l =
    let (l', acts) = ppp_status (record l { teardown = true }) 1 in
    (record l' { teardown = false; ppp = false }, acts)

-- `ppp_session_start`, which also says whether it succeeded; `created` and `listening` are what
-- `pppapi_pppos_create` and `pppapi_listen` return.
unfoldable pub ppp_session_start : Link → Bool → Bool → Result × Bool
ppp_session_start l created listening =
    let made = record l { ppp = true } in
    if not created
    then ((record l { ppp = false }, []), false)
    else if listening
    then ((made, attach_proxy ∷ []), true)
    else (after (made, attach_proxy ∷ []) ppp_close, false)

unfoldable pub ppp_session_stop : Link → Result
ppp_session_stop l =
    let ended = end_session l in
    let (l', acts) = if l.ppp then ppp_close ended else (ended, []) in
    (record l' { ppp_up = false }, acts)

-- RFCOMM_DATA_PACKET
unfoldable pub on_data : Link → ℕ → List ℕ → Result
on_data l channel pkt =
    let (s, consumed, ask) = pre_ppp_handshake l.script pkt in
    if l.session && channel == l.active_cid && l.ppp
    then (
      record l { script = s },
      if consumed then (if ask then ask_send channel ∷ [] else []) else to_ppp pkt ∷ [],
    )
    else (l, [])

-- RFCOMM_EVENT_INCOMING_CONNECTION
unfoldable pub on_incoming : Link → ℕ → ℕ → ℕ → Bool → Result
on_incoming l cid handle addr asked =
    let taken = record l { session = true; active_cid = cid } in
    if l.session then (l, decline cid ∷ []) else elim l.mode [
      | auto ↦ auto_begin taken cid handle addr asked
      | _ ↦ (taken, accept cid ∷ [])
    ]

-- RFCOMM_EVENT_CHANNEL_OPENED with a failure
unfoldable pub on_open_failed : Link → ℕ → Result
on_open_failed l cid =
    let l' = if cid == l.auto_cid then auto_release l else l in
    (if l.active_cid == cid || l.active_cid == 0 then end_session l' else l', [])

-- RFCOMM_EVENT_CHANNEL_OPENED with success
unfoldable pub on_opened_channel : Link → ℕ → ℕ → Bool → Bool → Result
on_opened_channel l cid handle created listening =
    let fresh = record l {
      tx = [];
      notify_pending = false;
      dropped = 0;
      script = record { frame_seen = false; reply = none };
    } in
    let (started, done) = ppp_session_start fresh created listening in
    if done
    then (started.0, started.1 ++ (on_opened handle ∷ []))
    else (end_session started.0, started.1 ++ (disconnect cid ∷ []))

-- `mfs` of RFCOMM_EVENT_CAN_SEND_NOW
abbrev pub chunk_size : ℕ → ℕ
chunk_size mfs = if mfs == 0 || ltb ppp_tx_chunk_max mfs then ppp_tx_chunk_max else mfs

-- The reply of the dial-up script goes first.
unfoldable pub send_reply : Link → List ℕ → Bool → Result
send_reply l reply sent =
    if sent
    then (
      record l { script = record (l.script) { reply = none } },
      rfcomm_send l.active_cid reply ∷ [],
    )
    else (l, rfcomm_send l.active_cid reply ∷ ask_send l.active_cid ∷ [])

unfoldable pub send_chunk : Link → ℕ → Bool → Result
send_chunk l mfs sent =
    let n = chunk_size mfs in
    let rest = drop n l.tx in
    let ask = if length rest == 0 then [] else ask_send l.active_cid ∷ [] in
    if length l.tx == 0 then (l, []) else (
      record l { tx = rest; dropped = if sent then l.dropped else u32 (l.dropped + 1) },
      rfcomm_send l.active_cid (take n l.tx) ∷ ask,
    )

-- RFCOMM_EVENT_CAN_SEND_NOW; `sent` says whether `rfcomm_send` succeeded.
unfoldable pub on_can_send : Link → ℕ → Bool → Result
on_can_send l mfs sent =
    if l.active_cid == 0
    then (l, [])
    else elim l.script.reply [ some reply ↦ send_reply l reply sent | none ↦ send_chunk l mfs sent ]

-- RFCOMM_EVENT_CHANNEL_CLOSED
unfoldable pub on_closed_channel : Link → ℕ → Result
on_closed_channel l cid =
    if not (cid == l.active_cid)
    then (l, [])
    else if cid == l.auto_cid
    then (end_session (auto_release l), [])
    else after (ppp_session_stop l) (λ l'. (l', on_closed ∷ []))

-- `ppp_output_cb`: what does not fit the stream buffer is dropped.
unfoldable pub ppp_output : Link → List ℕ → Result
ppp_output l bytes =
    let room = ppp_tx_buf_size - length l.tx in
    let queued = record l {
      tx = l.tx ++ take room bytes;
      dropped = if ltb room (length bytes) then u32 (l.dropped + 1) else l.dropped;
      notify_pending = true;
    } in
    if l.session then (queued, if l.notify_pending then [] else notify ∷ []) else (l, [])

-- `tx_notify_cb`
unfoldable pub tx_notify : Link → Result
tx_notify l = (
  record l { notify_pending = false },
  if l.active_cid == 0 then [] else ask_send l.active_cid ∷ [],
)

-- What can happen to the module, with what its calls return.
pub data Event : Type 0 where
  incoming : ℕ → ℕ → ℕ → Bool → Event
  remote_name : ℕ → ℕ → List ℕ → Event
  security_level : ℕ → ℕ → ℕ → Event
  open_failed closed : ℕ → Event
  opened : ℕ → ℕ → Bool → Bool → Event
  received : ℕ → List ℕ → Event
  can_send : ℕ → Bool → Event
  status : ℕ → Event
  output : List ℕ → Event
  notified : Event

unfoldable pub step : Link → Event → Result
step l (incoming cid handle addr asked) = on_incoming l cid handle addr asked
step l (remote_name addr st name) = on_name l addr st name
step l (security_level handle st level) = on_security l handle st level
step l (open_failed cid) = on_open_failed l cid
step l (closed cid) = on_closed_channel l cid
step l (opened cid handle created listening) = on_opened_channel l cid handle created listening
step l (received channel pkt) = on_data l channel pkt
step l (can_send mfs sent) = on_can_send l mfs sent
step l (status err) = ppp_status l err
step l (output bytes) = ppp_output l bytes
step l notified = tx_notify l

-- The handlers are called one after the other.
unfoldable pub run : Link → List Event → Link
run l [] = l
run l (e ∷ es) = run (step l e).0 es

-- The state at boot, and after `ppp_link_init` with the saved mode.
abbrev pub at_boot : SecMode → Link
at_boot m = record {
  mode = m;
  active_cid = 0;
  session = false;
  ppp_up = false;
  ppp = false;
  teardown = false;
  tx = [];
  notify_pending = false;
  dropped = 0;
  script = record { frame_seen = false; reply = none };
  auto_cid = 0;
  auto_handle = 0;
  auto_addr = 0;
  sec_pending = false;
  last_name = [];
  last_secured = false;
  last_valid = false;
}
