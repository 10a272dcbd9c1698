-- ===== src/Proxy/Session/Splice.antt =====
-- The copying of bytes both ways in main/http_proxy.c, and what each stage does with its sockets.
use vetera_bridge.Prelude.{
  ℕ, ◌+◌, ◌-◌, Bool, true, false, not, ◌&&◌, ◌||◌, none, List, [], ◌++◌, ltb, ◌==◌, if◌then◌else◌,
  length, take, drop, u32,
}
use vetera_bridge.Proxy.Flow.{idle_ms}
use vetera_bridge.Proxy.Session.{
  up_sz, down_sz, head, connecting, reply, splicing, Session, shuts, receives, sends, Shared, got,
  got_nothing, got_error, took, took_nothing, took_error, Answers, on_fd, sess_close, sess_fail,
}
use vetera_bridge.Proxy.Session.Setup.{on_connected, head_ready, reply_ready}

-- One half of `splice`: whether bytes moved, and whether the session was closed.
pub record Half : Type 0 where
  pub session : Session
  pub shared : Shared
  pub moved : Bool
  pub ended : Bool

abbrev pub still : Session → Shared → Half
still s w = record { session = s; shared = w; moved = false; ended = false }

abbrev pub end_half : Session × Shared → Half
end_half (s, w) = record { session = s; shared = w; moved = false; ended = true }

-- After `n` of the bytes from `up_off` on were sent.
abbrev pub sent_up : ℕ → Session → Session
sent_up n s =
    if s.up_off + n == length s.up
    then record s { up = []; up_off = 0 }
    else record s { up_off = s.up_off + n }

abbrev pub sent_down : ℕ → Session → Session
sent_down n s =
    if s.down_off + n == length s.down
    then record s { down = []; down_off = 0 }
    else record s { down_off = s.down_off + n }

abbrev pub up_sent : List ℕ → Session → Shared → Half
up_sent gone s w = record {
  session = sent_up (length gone) s;
  shared = record w { calls = on_fd s.px (λ fd. sends fd gone) w.calls };
  moved = ltb 0 (length gone);
  ended = false;
}

unfoldable pub send_up : Answers → Session → Shared → Half
send_up io s w = elim io.send_px [
  | took_error ↦ end_half (sess_close io s w)
  | took_nothing ↦ still s w
  | took k ↦ up_sent (take k (drop s.up_off s.up)) s w
]

-- No bytes are the end of the stream.
abbrev pub up_received : List ℕ → Session → Shared → Half
up_received fresh s w = record {
  session =
      if length fresh == 0 then record s { ph_eof = true } else record s { up = fresh; up_off = 0 };
  shared = record w { calls = on_fd s.ph (λ fd. receives fd fresh) w.calls };
  moved = ltb 0 (length fresh);
  ended = false;
}

unfoldable pub receive_up : Answers → Session → Shared → Half
receive_up io s w = elim io.recv_ph [
  | got_error ↦ end_half (sess_close io s w)
  | got_nothing ↦ still s w
  | got bs ↦ up_received (take up_sz bs) s w
]

unfoldable pub splice_up : Answers → Session → Shared → Half
splice_up io s w =
    if ltb s.up_off (length s.up) && io.px_writable
    then send_up io s w
    else if length s.up == 0 && not s.ph_eof && io.ph_readable
    then receive_up io s w
    else still s w

abbrev pub down_sent : List ℕ → Session → Shared → Half
down_sent gone s w = record {
  session = sent_down (length gone) s;
  shared = record w { calls = on_fd s.ph (λ fd. sends fd gone) w.calls };
  moved = ltb 0 (length gone);
  ended = false;
}

unfoldable pub send_down : Answers → Session → Shared → Half
send_down io s w = elim io.send_ph [
  | took_error ↦ end_half (sess_close io s w)
  | took_nothing ↦ still s w
  | took k ↦ down_sent (take k (drop s.down_off s.down)) s w
]

-- No bytes are the end of the stream.
abbrev pub down_received : List ℕ → Session → Shared → Half
down_received fresh s w = record {
  session =
      if length fresh == 0
      then record s { px_eof = true }
      else record s { down = fresh; down_off = 0 };
  shared = record w { calls = on_fd s.px (λ fd. receives fd fresh) w.calls };
  moved = ltb 0 (length fresh);
  ended = false;
}

unfoldable pub receive_down : Answers → Session → Shared → Half
receive_down io s w = elim io.recv_px [
  | got_error ↦ end_half (sess_close io s w)
  | got_nothing ↦ still s w
  | got bs ↦ down_received (take down_sz bs) s w
]

unfoldable pub splice_down : Answers → Session → Shared → Half
splice_down io s w =
    if ltb s.down_off (length s.down) && io.ph_writable
    then send_down io s w
    else if length s.down == 0 && not s.px_eof && io.px_readable
    then receive_down io s w
    else still s w

-- What is left of `splice` after the two halves.
unfoldable pub splice_end : Answers → ℕ → Bool → Session → Shared → Session × Shared
splice_end io now moved s w =
    let stop = s.ph_eof && length s.up == 0 && not s.px_shut in
    let s' = if stop then record s { px_shut = true } else s in
    let w' = if stop then record w { calls = on_fd s.px shuts w.calls } else w in
    if s'.px_eof && length s'.down == 0
    then sess_close io s' w'
    else (if moved then record s' { deadline = u32 (now + idle_ms) } else s', w')

unfoldable pub splice : Answers → ℕ → Session → Shared → Session × Shared
splice io now s w =
    let a = splice_up io s w in
    let b = splice_down io a.session a.shared in
    if a.ended
    then (a.session, a.shared)
    else if b.ended
    then (b.session, b.shared)
    else splice_end io now (a.moved || b.moved) b.session b.shared

unfoldable pub serve_head : Answers → ℕ → Session → Shared → Session × Shared
serve_head io now s w = elim io.recv_ph [
  | got_error ↦ sess_close io s w
  | got_nothing ↦ (s, w)
  | got bs ↦
      let fresh = take (up_sz - length s.up) bs in
      let w = record w { calls = on_fd s.ph (λ fd. receives fd fresh) w.calls } in
      if length fresh == 0
      then sess_close io s w
      else head_ready io now (record s { up = s.up ++ fresh }) w
]

unfoldable pub serve_connecting : Answers → ℕ → Session → Shared → Session × Shared
serve_connecting io now s w =
    if io.so_error then sess_fail io s (record w { resolved = none }) else on_connected io now s w

unfoldable pub serve_reply : Answers → ℕ → Session → Shared → Session × Shared
serve_reply io now s w = elim io.recv_px [
  | got_error ↦ sess_fail io s w
  | got_nothing ↦ (s, w)
  | got bs ↦
      let fresh = take (down_sz - 1 - length s.down) bs in
      let w = record w { calls = on_fd s.px (λ fd. receives fd fresh) w.calls } in
      if length fresh == 0
      then sess_fail io s w
      else reply_ready io now (record s { down = s.down ++ fresh }) w
]

unfoldable pub sess_service : Answers → ℕ → Session → Shared → Session × Shared
sess_service io now s w = elim s.stage [
  | head ↦ if io.ph_readable then serve_head io now s w else (s, w)
  | connecting ↦ if io.px_writable then serve_connecting io now s w else (s, w)
  | reply ↦ if io.px_readable then serve_reply io now s w else (s, w)
  | splicing ↦ splice io now s w
]
