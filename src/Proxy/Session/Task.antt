-- ===== src/Proxy/Session/Task.antt =====
-- The relay task of main/http_proxy.c: what it waits for, the connections that it accepts, and one
-- round of its loop.
use vetera_bridge.Prelude.{
  ℕ, suc, ◌+◌, Bool, true, false, not, ◌&&◌, ◌||◌, Option, none, some, List, [], ◌∷◌, ltb, ◌==◌,
  if◌then◌else◌, length, replicate, u32, sub32,
}
use vetera_bridge.Proxy.Flow.{relay_http_port, relay_tls_port, Flow, flow_lookup, flow_mark_closed}
use vetera_bridge.Proxy.Settings.{Settings}
use vetera_bridge.Proxy.Hook.{phone_addr_n}
use vetera_bridge.Proxy.Session.{
  sess_max, setup_ms, head, connecting, reply, splicing, Session, no_session, opens, closes, Shared,
  Answers, sess_close,
}
use vetera_bridge.Proxy.Session.Splice.{sess_service}

abbrev pub min_free_heap : ℕ
min_free_heap = 20480

-- `sess_fds`: `select` tells only of what is asked for.
unfoldable pub sess_fds : Session → Answers → Answers
sess_fds s io =
    let up = ltb s.up_off (length s.up) in
    let down = ltb s.down_off (length s.down) in
    elim s.stage [
      | head ↦ record io { ph_writable = false; px_readable = false; px_writable = false }
      | connecting ↦ record io { ph_readable = false; ph_writable = false; px_readable = false }
      | reply ↦ record io { ph_readable = false; ph_writable = false; px_writable = false }
      | splicing ↦ record io {
        px_writable = io.px_writable && up;
        ph_readable = io.ph_readable && not up && not s.ph_eof;
        ph_writable = io.ph_writable && down;
        px_readable = io.px_readable && not down && not s.px_eof;
      }
    ]

-- A connection that a listener took.
pub record Arrival : Type 0 where
  pub fd : ℕ
  pub peer_ip : ℕ
  pub peer_port : ℕ
  pub has_memory : Bool
  pub clock : ℕ
  pub address : List ℕ  -- the text of the original address

unfoldable pub accepted : Arrival → Bool → ℕ → ℕ → Session
accepted a tls orig_ip now = record no_session {
  used = true;
  tls = tls;
  ph = some a.fd;
  phone_port = a.peer_port;
  orig_ip = orig_ip;
  deadline = u32 (now + setup_ms);
  host = a.address;
}

-- The first slot that is not used takes the session.
unfoldable pub place : Session → List Session → Option (List Session)
place new [] = none
place new (s ∷ ss) =
    if s.used then elim (place new ss) [ none ↦ none | some l ↦ some (s ∷ l) ] else some (new ∷ ss)

abbrev pub refuse : Arrival → Shared → Shared
refuse a w = record w { calls = closes a.fd ∷ opens a.fd ∷ w.calls }

-- The original address of a connection of the phone that the input hook redirected.
abbrev pub redirected : Arrival → Bool → Shared → Option (ℕ × ℕ)
redirected a tls w =
    if a.peer_ip == phone_addr_n
    then flow_lookup w.flows a.peer_port (if tls then relay_tls_port else relay_http_port)
    else none

-- `do_accept`, where `accept` gave a socket.
unfoldable pub do_accept : Arrival → Bool → ℕ → List Session → Shared → List Session × Shared
do_accept a tls now ss w = elim (redirected a tls w) [
  | none ↦ (ss, refuse a w)
  | some (orig_ip, _) ↦
      let dropped = record (refuse a w) { flows = flow_mark_closed w.flows a.peer_port a.clock } in
      elim (place (accepted a tls orig_ip now) ss) [
        | none ↦ (ss, dropped)
        | some ss' ↦
            if a.has_memory
            then (ss', record w { calls = opens a.fd ∷ w.calls; active = w.active + 1 })
            else (ss, dropped)
      ]
]

abbrev pub maybe_accept : Option Arrival → Bool → ℕ → List Session × Shared → List Session × Shared
maybe_accept none tls now (ss, w) = (ss, w)
maybe_accept (some a) tls now (ss, w) = do_accept a tls now ss w

-- Every used session in turn; the environment of each is told by its slot.
unfoldable pub each :
    (ℕ → Session → Shared → Session × Shared) → ℕ → List Session → Shared → List Session × Shared
each f i [] w = ([], w)
each f i (s ∷ ss) w =
    let (s', w') = if s.used then f i s w else (s, w) in
    let (ss', w'') = each f (suc i) ss w' in (s' ∷ ss', w'')

-- `(int32_t)(now - deadline) > 0`
abbrev pub is_past : ℕ → ℕ → Bool
is_past now deadline = let d = sub32 now deadline in ltb 0 d && ltb d 2147483648

unfoldable pub expire : Answers → ℕ → Session → Shared → Session × Shared
expire io now s w = if is_past now s.deadline then sess_close io s w else (s, w)

unfoldable pub has_slot : List Session → Bool
has_slot [] = false
has_slot (s ∷ ss) = not s.used || has_slot ss

pub data Select : Type 0 where
  failed timeout ready : Select

-- What one round of the loop is given: the result of `select`, the free heap, the clock, the answers
-- for each slot, and the connections that wait at the two listeners.
pub record Round : Type 0 where
  pub select : Select
  pub free_heap : ℕ
  pub now : ℕ
  pub envs : ℕ → Answers
  pub http : Option Arrival
  pub https : Option Arrival

unfoldable pub serve_all : Round → List Session → Shared → List Session × Shared
serve_all r ss w =
    let room = has_slot ss && not (ltb r.free_heap min_free_heap) in
    let served = each (λ i s. sess_service (sess_fds s (r.envs i)) r.now s) 0 ss w in
    if room
    then maybe_accept r.https true r.now (maybe_accept r.http false r.now served)
    else served

unfoldable pub expire_all : Round → List Session × Shared → List Session × Shared
expire_all r (ss, w) = each (λ i s. expire (r.envs i) r.now s) 0 ss w

-- One round of the loop of `proxy_task`.
unfoldable pub proxy_round : Round → List Session × Shared → List Session × Shared
proxy_round r (ss, w) = elim r.select [
  | failed ↦ (ss, w)
  | timeout ↦ expire_all r (ss, w)
  | ready ↦ expire_all r (serve_all r ss w)
]

unfoldable pub rounds : List Round → List Session × Shared → List Session × Shared
rounds [] p = p
rounds (r ∷ rs) p = rounds rs (proxy_round r p)

-- The slots and what they share when the loop starts.
unfoldable pub no_sessions : List Session
no_sessions = replicate sess_max no_session

unfoldable pub at_start : List Flow → Settings → Shared
at_start flows settings = record {
  calls = [];
  active = 0;
  flows = flows;
  settings = settings;
  resolved = none;
}
