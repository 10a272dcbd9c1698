-- ===== src/Proxy/Session/Buffers.antt =====
-- The buffers of a session in main/http_proxy.c are large enough at every stage.
use vetera_bridge.Prelude.{
  ℕ, ◌+◌, ◌-◌, ◌≤◌, ◌<◌, ◌≡◌, ◌≢◌, inl, inr, true, false, ◌++◌, arith, leb, ◌==◌, Option-cases,
  if_cases, length, take, length-append, length-take, length-drop,
}
use vetera_bridge.Proxy.Request.{find_crlf2}
use vetera_bridge.Proxy.Session.{
  up_sz, up_cap, down_sz, head, connecting, reply, splicing, Session, no_session, Shared, Answers,
  sess_close,
}
use vetera_bridge.Proxy.Session.Setup.{
  host_max, on_connected, start_connect, head_ready, is_refusal, reply_ready,
}
use vetera_bridge.Proxy.Session.Splice.{
  Half, splice_up, splice_down, splice_end, splice, serve_head, serve_connecting, serve_reply,
  sess_service,
}
use vetera_bridge.Proxy.Session.Halves.{Recv-cases, Stage-cases, splice_up_cases, splice_down_cases}
use vetera_bridge.Proxy.Session.Heads.{HasTexts, head_ready_cases}
use vetera_bridge.Proxy.Session.Cases.{resolving, with_socket, socket_made, start_connect_cases}

pub record IsHeld (s : Session) : Type 0 where
  pub up_fits : length s.up ≤ up_cap
  pub up_off_le : s.up_off ≤ length s.up
  pub down_fits : length s.down ≤ down_sz
  pub down_off_le : s.down_off ≤ length s.down
  pub host_fits : length s.host < host_max

-- Before bytes are copied both ways, nothing was taken from the buffers; and while the head or the
-- reply is read, there is room for one more byte of it.
pub record IsBuffered (s : Session) : Type 0 where
  pub held : IsHeld s
  pub starts : s.stage ≢ splicing → (s.up_off ≡ 0) × (s.down_off ≡ 0)
  pub head_room : s.stage ≡ head → length s.up < up_sz
  pub reply_room : s.stage ≡ reply → length s.down < down_sz - 1

-- A session whose buffers are read from their start.
record IsStarting (s : Session) : Type 0 where
  held : IsHeld s
  up_start : s.up_off ≡ 0
  down_start : s.down_off ≡ 0

no_session-IsBuffered : IsBuffered no_session
no_session-IsBuffered = ground arith

-- After one half of the copying.
abbrev HeldHalf : Half → Type 0
HeldHalf h =
    IsHeld h.session
    × (h.ended ≡ false → h.session.stage ≡ splicing)
    × (h.ended ≡ true → h.session ≡ no_session)

module _ (io : Answers) (now : ℕ) where
  on_connected-IsBuffered :
      (s : Session) (w : Shared) → IsStarting s → IsBuffered (on_connected io now s w).0
  unfolding on_connected sess_close
  on_connected-IsBuffered s w v = ground arith

  start_connect-IsBuffered :
      (s : Session) (w : Shared) → IsStarting s → IsBuffered (start_connect io now s w).0
  unfolding sess_close
  start_connect-IsBuffered s w v =
      start_connect_cases (λ (r : Session × Shared). IsBuffered r.0) io now s w
        (λ r. no_session-IsBuffered)
        (λ r fd. (
          on_connected-IsBuffered (with_socket fd s) (socket_made fd (resolving r w))
              (ground (arith, v)),
          ground (arith, v),
          no_session-IsBuffered,
        ))

  -- `s` is in the stage `head`, and its buffer may be full.
  head_ready-IsBuffered :
      (s : Session) (w : Shared)
      → HasTexts io
      → IsStarting s
      → length s.up ≤ up_sz
      → s.stage ≡ head
      → IsBuffered (head_ready io now s w).0
  unfolding sess_close
  head_ready-IsBuffered s w t v le st =
      head_ready_cases (λ (r : Session × Shared). IsBuffered r.0) io now s w t v.held.host_fits le
        no_session-IsBuffered (λ room. ground (arith, v, st, room))
        (λ h u hl ul.
          start_connect-IsBuffered (record s { host = h; up = u }) w (ground (arith, v, hl, ul)))

  reply_ready-IsBuffered :
      (s : Session) (w : Shared)
      → IsStarting s
      → length s.down ≤ down_sz - 1
      → s.stage ≡ reply
      → IsBuffered (reply_ready io now s w).0
  unfolding reply_ready sess_close
  reply_ready-IsBuffered s w v le st = elim (Option-cases (find_crlf2 s.down)) [
    | inl e ↦
        rw (reply_ready, e)
          (if_cases (λ (r : Session × Shared). IsBuffered r.0) (leb (down_sz - 1) (length s.down))
            (λ _. no_session-IsBuffered) (λ c. ground (arith, v, st, c)))
    | inr (e, there) ↦
        rw (reply_ready, there)
          (if_cases (λ (r : Session × Shared). IsBuffered r.0) (is_refusal s.down)
            (λ _. no_session-IsBuffered) (λ _. ground (arith, v, length-drop (e + 4) s.down)))
  ]

  splice_up-HeldHalf :
      (s : Session) (w : Shared) → IsHeld s → s.stage ≡ splicing → HeldHalf (splice_up io s w)
  unfolding sess_close
  splice_up-HeldHalf s w v st =
      splice_up_cases HeldHalf io s w (ground arith) (ground (arith, v, st))
        (λ gone le _. ground (arith, v, st, le)) (λ fresh _ le. ground (arith, v, st, le))

  splice_down-HeldHalf :
      (s : Session) (w : Shared) → IsHeld s → s.stage ≡ splicing → HeldHalf (splice_down io s w)
  unfolding sess_close
  splice_down-HeldHalf s w v st =
      splice_down_cases HeldHalf io s w (ground arith) (ground (arith, v, st))
        (λ gone le _. ground (arith, v, st, le)) (λ fresh _ le. ground (arith, v, st, le))

  splice-IsBuffered :
      (s : Session) (w : Shared) → IsHeld s → s.stage ≡ splicing → IsBuffered (splice io now s w).0
  unfolding splice splice_end sess_close
  splice-IsBuffered s w v st =
      let a = splice_up io s w in
      let ha = splice_up-HeldHalf s w v st in
      if_cases (λ (r : Session × Shared). IsBuffered r.0) a.ended
        (λ e. rw (ha.2 e) no_session-IsBuffered)
        (λ e.
          let b = splice_down io a.session a.shared in
          let hb = splice_down-HeldHalf a.session a.shared ha.0 (ha.1 e) in
          if_cases (λ (r : Session × Shared). IsBuffered r.0) b.ended
            (λ f. rw (hb.2 f) no_session-IsBuffered) (λ f. ground (arith, hb.0, hb.1 f)))

  serve_head-IsBuffered :
      (s : Session) (w : Shared)
      → HasTexts io
      → IsBuffered s
      → s.stage ≡ head
      → IsBuffered (serve_head io now s w).0
  unfolding serve_head sess_close
  serve_head-IsBuffered s w t v st = elim (Recv-cases io.recv_ph) [
    | inl e ↦ rw (serve_head, e) no_session-IsBuffered
    | inr (inl e) ↦ rw (serve_head, e) v
    | inr (inr (bs, e)) ↦
        let fresh = take (up_sz - length s.up) bs in
        let size = length-take (up_sz - length s.up) bs in
        let joined = length-append s.up fresh in
        rw (serve_head, e)
          (if_cases (λ (r : Session × Shared). IsBuffered r.0) (length fresh == 0)
            (λ _. no_session-IsBuffered)
            (λ _.
              head_ready-IsBuffered (record s { up = s.up ++ fresh }) _ t
                (ground (arith, v, st, size, joined)) (ground (arith, v, st, size, joined)) st))
  ]

  serve_connecting-IsBuffered :
      (s : Session) (w : Shared)
      → IsBuffered s
      → s.stage ≡ connecting
      → IsBuffered (serve_connecting io now s w).0
  unfolding serve_connecting sess_close
  serve_connecting-IsBuffered s w v st =
      if_cases (λ (r : Session × Shared). IsBuffered r.0) io.so_error (λ _. no_session-IsBuffered)
        (λ _. on_connected-IsBuffered s w (ground (arith, v, st)))

  serve_reply-IsBuffered :
      (s : Session) (w : Shared)
      → IsBuffered s
      → s.stage ≡ reply
      → IsBuffered (serve_reply io now s w).0
  unfolding serve_reply sess_close
  serve_reply-IsBuffered s w v st = elim (Recv-cases io.recv_px) [
    | inl e ↦ rw (serve_reply, e) no_session-IsBuffered
    | inr (inl e) ↦ rw (serve_reply, e) v
    | inr (inr (bs, e)) ↦
        let fresh = take (down_sz - 1 - length s.down) bs in
        let size = length-take (down_sz - 1 - length s.down) bs in
        let joined = length-append s.down fresh in
        rw (serve_reply, e)
          (if_cases (λ (r : Session × Shared). IsBuffered r.0) (length fresh == 0)
            (λ _. no_session-IsBuffered)
            (λ _.
              reply_ready-IsBuffered (record s { down = s.down ++ fresh }) _
                (ground (arith, v, st, size, joined)) (ground (arith, v, st, size, joined)) st))
  ]

  pub sess_service-IsBuffered :
      (s : Session) (w : Shared)
      → HasTexts io
      → IsBuffered s
      → IsBuffered (sess_service io now s w).0
  unfolding sess_service
  sess_service-IsBuffered s w t v = elim (Stage-cases s.stage) [
    | inl st ↦
        rw (sess_service, st)
          (if_cases (λ (r : Session × Shared). IsBuffered r.0) io.ph_readable
            (λ _. serve_head-IsBuffered s w t v st) (λ _. v))
    | inr (inl st) ↦
        rw (sess_service, st)
          (if_cases (λ (r : Session × Shared). IsBuffered r.0) io.px_writable
            (λ _. serve_connecting-IsBuffered s w v st) (λ _. v))
    | inr (inr (inl st)) ↦
        rw (sess_service, st)
          (if_cases (λ (r : Session × Shared). IsBuffered r.0) io.px_readable
            (λ _. serve_reply-IsBuffered s w v st) (λ _. v))
    | inr (inr (inr st)) ↦ rw (sess_service, st) (splice-IsBuffered s w v.held st)
  ]
