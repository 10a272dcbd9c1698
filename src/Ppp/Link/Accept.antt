-- ===== src/Ppp/Link/Accept.antt =====
-- Whom main/ppp_link.c accepts in auto mode.
use vetera_bridge.Prelude.{
  ℕ, ◌≤◌, ◌≡◌, refl, ◌∙◌, ◌≢◌, inl, inr, Bool, true, false, List, [], ◌∷◌, Memᴰ, arith, Bool-cases,
  take, All,
}
use vetera_bridge.Ppp.Names.{is_nosec_name}
use vetera_bridge.Ppp.Security.{auto}
use vetera_bridge.Ppp.Link.{
  Link, Act, accept, auto_release, auto_fail, is_secured, auto_decide, auto_begin, on_name,
  on_security,
}
use vetera_bridge.Ppp.Link.Handlers.{
  ppp_status, ppp_close, ppp_session_start, ppp_session_stop, on_data, on_incoming, on_open_failed,
  on_opened_channel, send_reply, send_chunk, on_can_send, on_closed_channel, ppp_output, tx_notify,
  Event, incoming, remote_name, security_level, open_failed, closed, opened, received, can_send,
  status, output, notified, step, run, at_boot,
}

-- The event settles that a phone, by the handle and the address of its connection, may come in: it
-- told a name of a model without security, or its link has authentication and encryption.
abbrev pub Grants : Event → ℕ → ℕ → Type 0
Grants (remote_name addr st name) handle at =
    (addr ≡ at) × (st ≡ 0) × (is_nosec_name (take 31 name) ≡ true)
Grants (security_level h st level) handle at = (h ≡ handle) × (st ≡ 0) × (2 ≤ level)
Grants _ handle at = ⊥

-- An accept is of a channel whose request came in, and by such an event.
abbrev pub IsGranted : List Event → Event → Act → Type 0
IsGranted es e (accept cid) =
    (handle : ℕ) × (addr : ℕ) × (asked : Bool) × Memᴰ (incoming cid handle addr asked) es
    × Grants e handle addr
IsGranted es e _ = Unit

-- The channel that is held, if there is one, asked to come in.
abbrev Asked : List Event → Link → Type 0
Asked es l =
    l.auto_cid ≢ 0 → (asked : Bool) × Memᴰ (incoming l.auto_cid l.auto_handle l.auto_addr asked) es

-- A step holds no other channel than before.
abbrev Keeps : Link → Link → Type 0
Keeps l l' =
    (l'.mode ≡ l.mode)
    × (l'.auto_cid ≢ 0 → l'.auto_cid ≡ l.auto_cid)
    × (l'.auto_handle ≡ l.auto_handle)
    × (l'.auto_addr ≡ l.auto_addr)

ppp_status-Keeps : (l : Link) (err : ℕ) → Keeps l (ppp_status l err).0
unfolding ppp_status
ppp_status-Keeps l err = ground arith

on_name-Keeps : (l : Link) (addr st : ℕ) (name : List ℕ) → Keeps l (on_name l addr st name).0
unfolding on_name auto_decide
on_name-Keeps l addr st name = ground arith

on_security-Keeps : (l : Link) (handle st level : ℕ) → Keeps l (on_security l handle st level).0
unfolding on_security auto_fail auto_release
on_security-Keeps l handle st level = ground arith

on_open_failed-Keeps : (l : Link) (cid : ℕ) → Keeps l (on_open_failed l cid).0
unfolding on_open_failed auto_release
on_open_failed-Keeps l cid = ground arith

on_opened_channel-Keeps :
    (l : Link) (cid handle : ℕ) (created listening : Bool)
    → Keeps l (on_opened_channel l cid handle created listening).0
unfolding on_opened_channel ppp_session_start ppp_close ppp_status
on_opened_channel-Keeps l cid handle created listening = ground arith

on_closed_channel-Keeps : (l : Link) (cid : ℕ) → Keeps l (on_closed_channel l cid).0
unfolding on_closed_channel ppp_session_stop ppp_close ppp_status auto_release
on_closed_channel-Keeps l cid = ground arith

on_data-Keeps : (l : Link) (channel : ℕ) (pkt : List ℕ) → Keeps l (on_data l channel pkt).0
unfolding on_data
on_data-Keeps l channel pkt = ground arith

on_can_send-Keeps : (l : Link) (mfs : ℕ) (sent : Bool) → Keeps l (on_can_send l mfs sent).0
unfolding on_can_send send_reply send_chunk
on_can_send-Keeps l mfs sent = ground arith

ppp_output-Keeps : (l : Link) (bytes : List ℕ) → Keeps l (ppp_output l bytes).0
unfolding ppp_output
ppp_output-Keeps l bytes = ground arith

-- The calls of a step, by the channel that was held before it.
abbrev Permits : Link → Event → Act → Type 0
Permits l e (accept cid) = (cid ≡ l.auto_cid) × (cid ≢ 0) × Grants e l.auto_handle l.auto_addr
Permits l e _ = Unit

on_incoming-Permits :
    (l : Link) (cid handle addr : ℕ) (asked : Bool) (e : Event)
    → l.mode ≡ auto
    → All (Permits l e) (on_incoming l cid handle addr asked).1
unfolding on_incoming auto_begin auto_decide is_secured
on_incoming-Permits l cid handle addr asked e h = ground arith

on_name-Permits :
    (l : Link) (addr st : ℕ) (name : List ℕ)
    → All (Permits l (remote_name addr st name)) (on_name l addr st name).1
unfolding on_name auto_decide is_secured
on_name-Permits l addr st name = ground arith

on_security-Permits :
    (l : Link) (handle st level : ℕ)
    → All (Permits l (security_level handle st level)) (on_security l handle st level).1
unfolding on_security auto_fail auto_release
on_security-Permits l handle st level = ground arith

on_opened_channel-Permits :
    (l : Link) (cid handle : ℕ) (created listening : Bool) (e : Event)
    → All (Permits l e) (on_opened_channel l cid handle created listening).1
unfolding on_opened_channel ppp_session_start ppp_close ppp_status
on_opened_channel-Permits l cid handle created listening e = ground arith

on_closed_channel-Permits :
    (l : Link) (cid : ℕ) (e : Event) → All (Permits l e) (on_closed_channel l cid).1
unfolding on_closed_channel ppp_session_stop ppp_close ppp_status auto_release
on_closed_channel-Permits l cid e = ground arith

on_data-Permits :
    (l : Link) (channel : ℕ) (pkt : List ℕ) (e : Event)
    → All (Permits l e) (on_data l channel pkt).1
unfolding on_data
on_data-Permits l channel pkt e = ground arith

on_can_send-Permits :
    (l : Link) (mfs : ℕ) (sent : Bool) (e : Event) → All (Permits l e) (on_can_send l mfs sent).1
unfolding on_can_send send_reply send_chunk
on_can_send-Permits l mfs sent e = ground arith

ppp_output-Permits :
    (l : Link) (bytes : List ℕ) (e : Event) → All (Permits l e) (ppp_output l bytes).1
unfolding ppp_output
ppp_output-Permits l bytes e = ground arith

ppp_status-Permits : (l : Link) (err : ℕ) (e : Event) → All (Permits l e) (ppp_status l err).1
unfolding ppp_status
ppp_status-Permits l err e = ground arith

tx_notify-Keeps : (l : Link) → Keeps l (tx_notify l).0
unfolding tx_notify
tx_notify-Keeps l = (refl, (λ n. refl), refl, refl)

step-Permits : (l : Link) (e : Event) → l.mode ≡ auto → All (Permits l e) (step l e).1
unfolding step on_open_failed tx_notify
step-Permits l (incoming cid handle addr asked) h =
    on_incoming-Permits l cid handle addr asked (incoming cid handle addr asked) h
step-Permits l (remote_name addr st name) h = on_name-Permits l addr st name
step-Permits l (security_level handle st level) h = on_security-Permits l handle st level
step-Permits l (open_failed cid) h = tt
step-Permits l (closed cid) h = on_closed_channel-Permits l cid (closed cid)
step-Permits l (opened cid handle created listening) h =
    on_opened_channel-Permits l cid handle created listening (opened cid handle created listening)
step-Permits l (received channel pkt) h = on_data-Permits l channel pkt (received channel pkt)
step-Permits l (can_send mfs sent) h = on_can_send-Permits l mfs sent (can_send mfs sent)
step-Permits l (status err) h = ppp_status-Permits l err (status err)
step-Permits l (output bytes) h = ppp_output-Permits l bytes (output bytes)
step-Permits l notified h = ground arith

-- What a step keeps true of the held channel, where it is one of the events.
abbrev Holds : List Event → Link → Type 0
Holds es l = (l.mode ≡ auto) × Asked es l

Keeps-Holds : (es : List Event) (l l' : Link) → Keeps l l' → Holds es l → Holds es l'
Keeps-Holds es l l' k h =
    (k.0 ∙ h.0, (λ n. let (asked, m) = h.1 (λ z. n (k.1 n ∙ z)) in (asked, rw (k.1 n, k.2, k.3) m)))

auto_begin-Holds :
    (es : List Event) (l : Link) (cid handle addr : ℕ) (asked : Bool)
    → l.mode ≡ auto
    → Memᴰ (incoming cid handle addr asked) es
    → Holds es (auto_begin l cid handle addr asked).0
unfolding auto_begin auto_decide is_secured
auto_begin-Holds es l cid handle addr true h m = (h, (λ n. (true, m)))
auto_begin-Holds es l cid handle addr false h m = (h, (λ n. (false, m)))

on_incoming-Holds :
    (es : List Event) (l : Link) (cid handle addr : ℕ) (asked : Bool)
    → Memᴰ (incoming cid handle addr asked) es
    → Holds es l
    → Holds es (on_incoming l cid handle addr asked).0
unfolding on_incoming
on_incoming-Holds es l cid handle addr asked m h = elim (Bool-cases l.session) [
  | inl s ↦ rw s h
  | inr s ↦
      rw (s, h.0)
        (auto_begin-Holds es (record l { session = true; active_cid = cid }) cid handle addr asked
          h.0 m)
]

step-Holds :
    (es : List Event) (l : Link) (e : Event) → Memᴰ e es → Holds es l → Holds es (step l e).0
unfolding step
step-Holds es l (incoming cid handle addr asked) m = on_incoming-Holds es l cid handle addr asked m
step-Holds es l (remote_name addr st name) m =
    Keeps-Holds es l (on_name l addr st name).0 (on_name-Keeps l addr st name)
step-Holds es l (security_level handle st level) m =
    Keeps-Holds es l (on_security l handle st level).0 (on_security-Keeps l handle st level)
step-Holds es l (open_failed cid) m =
    Keeps-Holds es l (on_open_failed l cid).0 (on_open_failed-Keeps l cid)
step-Holds es l (closed cid) m =
    Keeps-Holds es l (on_closed_channel l cid).0 (on_closed_channel-Keeps l cid)
step-Holds es l (opened cid handle created listening) m =
    Keeps-Holds es l (on_opened_channel l cid handle created listening).0
      (on_opened_channel-Keeps l cid handle created listening)
step-Holds es l (received channel pkt) m =
    Keeps-Holds es l (on_data l channel pkt).0 (on_data-Keeps l channel pkt)
step-Holds es l (can_send mfs sent) m =
    Keeps-Holds es l (on_can_send l mfs sent).0 (on_can_send-Keeps l mfs sent)
step-Holds es l (status err) m = Keeps-Holds es l (ppp_status l err).0 (ppp_status-Keeps l err)
step-Holds es l (output bytes) m =
    Keeps-Holds es l (ppp_output l bytes).0 (ppp_output-Keeps l bytes)
step-Holds es l notified m = Keeps-Holds es l (tx_notify l).0 (tx_notify-Keeps l)

run-Holds :
    (whole es : List Event) (l : Link)
    → ((e : Event) → Memᴰ e es → Memᴰ e whole)
    → Holds whole l
    → Holds whole (run l es)
unfolding run
run-Holds whole [] l sub h = h
run-Holds whole (e ∷ es) l sub h =
    run-Holds whole es (step l e).0 (λ x m. sub x (Memᴰ.tail m))
      (step-Holds whole l e (sub e (Memᴰ.head refl)) h)

granted :
    (es : List Event) (l : Link) (e : Event) (a : Act)
    → Holds es l
    → Permits l e a
    → IsGranted es e a
granted es l e (accept cid) h (same, n, g) =
    let (asked, m) = h.1 (λ z. n (same ∙ z)) in (l.auto_handle, l.auto_addr, asked, rw same m, g)
granted es l e _ h p = tt

All-IsGranted :
    (es : List Event) (l : Link) (e : Event) (acts : List Act)
    → Holds es l
    → All (Permits l e) acts
    → All (IsGranted es e) acts
All-IsGranted es l e [] h p = tt
All-IsGranted es l e (a ∷ acts) h p = (granted es l e a h p.0, All-IsGranted es l e acts h p.1)

-- In auto mode, after any events since boot, a step accepts a channel only if the channel's request
-- came in before, from a phone that the step's event lets in: it is the phone's name, which
-- contains a model number without security, or the report that the phone's connection has reached
-- authentication and encryption. No phone is accepted otherwise, whatever comes in what order.
pub step-IsGranted :
    (es : List Event) (e : Event) → All (IsGranted es e) (step (run (at_boot auto) es) e).1
step-IsGranted es e =
    let h = run-Holds es es (at_boot auto) (λ x m. m) (refl, (λ n. absurd (n refl))) in
    All-IsGranted es (run (at_boot auto) es) e (step (run (at_boot auto) es) e).1 h
      (step-Permits (run (at_boot auto) es) e h.0)
