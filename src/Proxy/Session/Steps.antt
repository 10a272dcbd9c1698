-- ===== src/Proxy/Session/Steps.antt =====
-- What serving a session in main/http_proxy.c does to its sockets and to what is shared, as a rule for
-- predicates: it closes the session, makes the socket to the proxy, or changes neither.
use vetera_bridge.Prelude.{
  ℕ, ◌+◌, ◌-◌, ◌≤◌, ◌≡◌, refl, inl, inr, Bool, true, false, not, ◌&&◌, ◌||◌, Option, none, some,
  List, [], ◌∷◌, ◌++◌, arith, leb, ◌==◌, if◌then◌else◌, Option-cases, if_cases, length, take,
  length-append, length-take, u32,
}
use vetera_bridge.Proxy.Flow.{idle_ms}
use vetera_bridge.Proxy.Request.{find_crlf2}
use vetera_bridge.Proxy.Session.{
  up_sz, down_sz, head, connecting, Session, Call, opens, closes, shuts, receives, sends, Shared,
  Answers, on_fd, sess_close, bytes_of,
}
use vetera_bridge.Proxy.Session.Setup.{
  connect_text, on_connected, start_connect, is_refusal, reply_ready,
}
use vetera_bridge.Proxy.Session.Heads.{HasTexts, head_ready_cases}
use vetera_bridge.Proxy.Session.Cases.{resolving, with_socket, socket_made, start_connect_cases}
use vetera_bridge.Proxy.Session.Halves.{Recv-cases, Stage-cases, splice_up_cases, splice_down_cases}
use vetera_bridge.Proxy.Session.Splice.{
  Half, splice_up, splice_down, splice_end, splice, serve_head, serve_connecting, serve_reply,
  sess_service,
}
use vetera_bridge.Proxy.Session.Buffers.{IsBuffered}

-- The calls that open and close sockets.
unfoldable pub turns : List Call → List Call
turns [] = []
turns (opens fd ∷ cs) = opens fd ∷ turns cs
turns (closes fd ∷ cs) = closes fd ∷ turns cs
turns (_ ∷ cs) = turns cs

pub record IsAlike (s s' : Session) (w w' : Shared) : Type 0 where
  pub used : s'.used ≡ s.used
  pub ph : s'.ph ≡ s.ph
  pub px : s'.px ≡ s.px
  pub stage : s'.stage ≡ head → s.stage ≡ head
  pub active : w'.active ≡ w.active
  pub calls : turns w'.calls ≡ turns w.calls

pub record IsStepped (P : Session × Shared → Type 0) (io : Answers) : Type 0 where
  pub close : (s : Session) (w : Shared) → s.used ≡ true → P (s, w) → P (sess_close io s w)
  pub alike : (s s' : Session) (w w' : Shared) → IsAlike s s' w w' → P (s, w) → P (s', w')
  pub socket :
      (s : Session) (w : Shared) (fd : ℕ)
      → s.used ≡ true
      → s.px ≡ none
      → P (s, w)
      → P (record (with_socket fd s) { stage = connecting }, socket_made fd w)

turns-sends :
    (o : Option ℕ) (bs : List ℕ) (cs : List Call)
    → turns (on_fd o (λ fd. sends fd bs) cs) ≡ turns cs
unfolding turns
turns-sends none bs cs = refl
turns-sends (some fd) bs cs = refl

turns-receives :
    (o : Option ℕ) (bs : List ℕ) (cs : List Call)
    → turns (on_fd o (λ fd. receives fd bs) cs) ≡ turns cs
unfolding turns
turns-receives none bs cs = refl
turns-receives (some fd) bs cs = refl

turns-shuts : (o : Option ℕ) (cs : List Call) → turns (on_fd o shuts cs) ≡ turns cs
unfolding turns
turns-shuts none cs = refl
turns-shuts (some fd) cs = refl

module _ (P : Session × Shared → Type 0) (io : Answers) (laws : IsStepped P io) (now : ℕ) where
  on_connected-P :
      (s : Session) (w : Shared) → s.used ≡ true → P (s, w) → P (on_connected io now s w)
  unfolding on_connected
  on_connected-P s w u p =
      let req = connect_text s.host in
      let gone = bytes_of io.send_px req in
      let tried = record w { calls = on_fd s.px (λ fd. sends fd gone) w.calls } in
      let same = turns-sends s.px gone w.calls in
      let p' = laws.alike s s w tried (ground (arith, same)) p in
      if_cases P s.tls
        (λ _.
          if_cases P (leb 200 (length req)) (λ _. laws.close s w u p)
            (λ _.
              if_cases P (length gone == length req)
                (λ _. laws.alike s _ w tried (ground (arith, same)) p)
                (λ _. laws.close s tried u p')))
        (λ _. laws.alike s _ w w (ground arith) p)

  start_connect-P :
      (s : Session) (w : Shared)
      → s.used ≡ true
      → s.px ≡ none
      → P (s, w)
      → P (start_connect io now s w)
  unfolding on_connected sess_close
  start_connect-P s w u none_yet p =
      let resolved =
        λ (r : Option (List ℕ × ℕ)). laws.alike s s w (resolving r w) (ground arith) p in
      start_connect_cases P io now s w (λ r. laws.close s (resolving r w) u (resolved r))
        (λ r fd.
          let w' = socket_made fd (resolving r w) in
          let s' = record (with_socket fd s) { stage = connecting } in
          let made = laws.socket s (resolving r w) fd u none_yet (resolved r) in
          (
            on_connected-P s' w' u made,
            laws.alike s' _ w' w' (ground arith) made,
            laws.close s' (resolving none w') u
                (laws.alike s' s' w' (resolving none w') (ground arith) made),
          ))

  serve_head-P :
      (s : Session) (w : Shared)
      → s.used ≡ true
      → HasTexts io
      → IsBuffered s
      → s.stage ≡ head
      → s.px ≡ none
      → P (s, w)
      → P (serve_head io now s w)
  unfolding serve_head
  serve_head-P s w u t v st none_yet p = elim (Recv-cases io.recv_ph) [
    | inl e ↦ rw (serve_head, e) (laws.close s w u p)
    | inr (inl e) ↦ rw (serve_head, e) p
    | inr (inr (bs, e)) ↦
        let fresh = take (up_sz - length s.up) bs in
        let w' = record w { calls = on_fd s.ph (λ fd. receives fd fresh) w.calls } in
        let s' = record s { up = s.up ++ fresh } in
        let same = turns-receives s.ph fresh w.calls in
        let size : length (s.up ++ fresh) ≤ up_sz =
          omega (
            arith,
            v.head_room st,
            length-take (up_sz - length s.up) bs,
            length-append s.up fresh,
          ) in
        let p' = λ (h t : List ℕ).
          laws.alike s (record s { host = h; up = t }) w w' (ground (arith, same)) p in
        rw (serve_head, e)
          (if_cases P (length fresh == 0)
            (λ _. laws.close s w' u (laws.alike s s w w' (ground (arith, same)) p))
            (λ _.
              head_ready_cases P io now s' w' t v.held.host_fits size
                (laws.close s' w' u (p' s.host s'.up)) (λ _. p' s.host s'.up)
                (λ h t _ _.
                  start_connect-P (record s' { host = h; up = t }) w' u none_yet (p' h t))))
  ]

  serve_reply-P : (s : Session) (w : Shared) → s.used ≡ true → P (s, w) → P (serve_reply io now s w)
  unfolding serve_reply reply_ready sess_close
  serve_reply-P s w u p = elim (Recv-cases io.recv_px) [
    | inl e ↦ rw (serve_reply, e) (laws.close s w u p)
    | inr (inl e) ↦ rw (serve_reply, e) p
    | inr (inr (bs, e)) ↦
        let fresh = take (down_sz - 1 - length s.down) bs in
        let w' = record w { calls = on_fd s.px (λ fd. receives fd fresh) w.calls } in
        let s' = record s { down = s.down ++ fresh } in
        let same = turns-receives s.px fresh w.calls in
        let p' = laws.alike s s' w w' (ground (arith, same)) p in
        rw (serve_reply, e)
          (if_cases P (length fresh == 0) (λ _. laws.close s' w' u p')
            (λ _. elim (Option-cases (find_crlf2 s'.down)) [
              | inl c ↦
                  rw (reply_ready, c)
                    (if_cases P (leb (down_sz - 1) (length s'.down)) (λ _. laws.close s' w' u p')
                      (λ _. p'))
              | inr (n, c) ↦
                  rw (reply_ready, c)
                    (if_cases P (is_refusal s'.down) (λ _. laws.close s' w' u p')
                      (λ _. laws.alike s' _ w' w' (ground arith) p'))
            ]))
  ]

  abbrev AfterHalf : Half → Type 0
  AfterHalf h = P (h.session, h.shared) × (h.ended ≡ false → h.session.used ≡ true)

  splice_up-P : (s : Session) (w : Shared) → s.used ≡ true → P (s, w) → AfterHalf (splice_up io s w)
  splice_up-P s w u p =
      splice_up_cases AfterHalf io s w (laws.close s w u p, λ e. ground (arith, e)) (p, λ _. u)
        (λ gone _ _. (
          laws.alike s _ w _ (ground (arith, turns-sends s.px gone w.calls)) p,
          λ _. ground (arith, u),
        ))
        (λ fresh _ _. (
          laws.alike s _ w _ (ground (arith, turns-receives s.ph fresh w.calls)) p,
          λ _. ground (arith, u),
        ))

  splice_down-P :
      (s : Session) (w : Shared) → s.used ≡ true → P (s, w) → AfterHalf (splice_down io s w)
  splice_down-P s w u p =
      splice_down_cases AfterHalf io s w (laws.close s w u p, λ e. ground (arith, e)) (p, λ _. u)
        (λ gone _ _. (
          laws.alike s _ w _ (ground (arith, turns-sends s.ph gone w.calls)) p,
          λ _. ground (arith, u),
        ))
        (λ fresh _ _. (
          laws.alike s _ w _ (ground (arith, turns-receives s.px fresh w.calls)) p,
          λ _. ground (arith, u),
        ))

  splice_end-P :
      (moved : Bool) (s : Session) (w : Shared)
      → s.used ≡ true
      → P (s, w)
      → P (splice_end io now moved s w)
  unfolding splice_end sess_close
  splice_end-P moved s w u p =
      let stop = s.ph_eof && length s.up == 0 && not s.px_shut in
      let s' = if stop then record s { px_shut = true } else s in
      let w' = if stop then record w { calls = on_fd s.px shuts w.calls } else w in
      let p' = laws.alike s s' w w' (ground (arith, turns-shuts s.px w.calls)) p in
      if_cases P (s'.px_eof && length s'.down == 0) (λ _. laws.close s' w' (ground (arith, u)) p')
        (λ _.
          laws.alike s' (if moved then record s' { deadline = u32 (now + idle_ms) } else s') w' w'
            (ground arith) p')

  splice-P : (s : Session) (w : Shared) → s.used ≡ true → P (s, w) → P (splice io now s w)
  unfolding splice
  splice-P s w u p =
      let a = splice_up io s w in
      let b = splice_down io a.session a.shared in
      let pa = splice_up-P s w u p in
      if_cases P a.ended (λ _. pa.0)
        (λ e.
          let pb = splice_down-P a.session a.shared (pa.1 e) pa.0 in
          if_cases P b.ended (λ _. pb.0)
            (λ f. splice_end-P (a.moved || b.moved) b.session b.shared (pb.1 f) pb.0))

  pub sess_service-P :
      (s : Session) (w : Shared)
      → s.used ≡ true
      → HasTexts io
      → IsBuffered s
      → (s.stage ≡ head → s.px ≡ none)
      → P (s, w)
      → P (sess_service io now s w)
  unfolding sess_service serve_connecting sess_close
  sess_service-P s w u t v none_yet p = elim (Stage-cases s.stage) [
    | inl st ↦
        rw (sess_service, st)
          (if_cases P io.ph_readable (λ _. serve_head-P s w u t v st (none_yet st) p) (λ _. p))
    | inr (inl st) ↦
        rw (sess_service, st)
          (if_cases P io.px_writable
            (λ _.
              if_cases P io.so_error
                (λ _. laws.close s (resolving none w) u (laws.alike s s w _ (ground arith) p))
                (λ _. on_connected-P s w u p))
            (λ _. p))
    | inr (inr (inl st)) ↦
        rw (sess_service, st) (if_cases P io.px_readable (λ _. serve_reply-P s w u p) (λ _. p))
    | inr (inr (inr st)) ↦ rw (sess_service, st) (splice-P s w u p)
  ]
