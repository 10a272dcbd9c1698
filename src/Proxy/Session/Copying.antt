-- ===== src/Proxy/Session/Copying.antt =====
-- The copying of main/http_proxy.c, round by round, refines two pipes.
use vetera_bridge.Prelude.{
  ℕ, ◌+◌, ◌≡◌, sym, subst, ◌≢◌, Bool, true, false, not, ◌&&◌, ◌||◌, Option, none, some, List, [],
  ◌∷◌, ◌++◌, append-nil, arith, ◌==◌, if◌then◌else◌, if_cases, length, u32,
}
use vetera_bridge.Proxy.Flow.{idle_ms}
use vetera_bridge.Proxy.Session.{
  splicing, Session, Call, shuts, Shared, Answers, close_fd, on_fd, sess_close,
}
use vetera_bridge.Proxy.Session.Splice.{
  Half, still, up_sent, up_received, splice_up, down_sent, down_received, splice_down, splice_end,
  splice, sess_service,
}
use vetera_bridge.Proxy.Session.Halves.{splice_up_cases, splice_down_cases}
use vetera_bridge.Proxy.Session.Task.{sess_fds}
use vetera_bridge.Proxy.Session.Pipes.{
  bytes_in, bytes_out, pending_up, pending_down, in_shut, out_shut, IsPiped, up_sent-IsPiped,
  up_received-IsPiped, down_sent-IsPiped, down_received-IsPiped,
}

-- What one session is served with in each round: the answers, and the time.
abbrev pub serve_one : Answers × ℕ → Session × Shared → Session × Shared
serve_one (io, now) (s, w) = if s.used then sess_service (sess_fds s io) now s w else (s, w)

unfoldable pub serve_run : List (Answers × ℕ) → Session × Shared → Session × Shared
serve_run [] r = r
serve_run (a ∷ rest) r = serve_run rest (serve_one a r)

spliced :
    (io : Answers) (now : ℕ) (s : Session) (w : Shared)
    → s.stage ≡ splicing
    → sess_service io now s w ≡ splice io now s w
unfolding sess_service
spliced io now s w st = ground (arith, st)

module _ (p x : ℕ) (up0 down0 : List ℕ) where
  -- What went out is the start of what came in, both ways.
  abbrev pub IsFifo : List Call → Type 0
  IsFifo cs =
      ((left : List ℕ) × (bytes_out x cs ++ left ≡ up0 ++ bytes_in p cs))
      × ((left : List ℕ) × (bytes_out p cs ++ left ≡ down0 ++ bytes_in x cs))

  abbrev pub IsCopying : Session × Shared → Type 0
  IsCopying r =
      IsFifo r.1.calls × (r.0.used ≡ true → (r.0.stage ≡ splicing) × IsPiped p x up0 down0 r)

  Piped-IsFifo : (r : Session × Shared) → IsPiped p x up0 down0 r → IsFifo r.1.calls
  Piped-IsFifo r v = ((pending_up r.0, v.up), (pending_down r.0, v.down))

  Piped-IsCopying :
      (s : Session) (w : Shared)
      → s.stage ≡ splicing
      → IsPiped p x up0 down0 (s, w)
      → IsCopying (s, w)
  Piped-IsCopying s w st v = (Piped-IsFifo (s, w) v, λ _. (st, v))

  closed-IsFifo : (o : Option ℕ) (cs : List Call) → IsFifo cs → IsFifo (close_fd o cs)
  unfolding bytes_in bytes_out
  closed-IsFifo none cs h = h
  closed-IsFifo (some g) cs h = h

  close-IsCopying :
      (io : Answers) (s : Session) (w : Shared) → IsFifo w.calls → IsCopying (sess_close io s w)
  unfolding sess_close
  close-IsCopying io s w h = (
    closed-IsFifo s.px (close_fd s.ph w.calls) (closed-IsFifo s.ph w.calls h),
    λ u. absurd (ground (arith, u)),
  )

  -- A half that has not ended leaves both pipes as they should be.
  abbrev AfterHalf : Half → Type 0
  AfterHalf h =
      IsCopying (h.session, h.shared)
      × (h.ended ≡ false
          → (h.session.stage ≡ splicing) × IsPiped p x up0 down0 (h.session, h.shared))

  halfway :
      (h : Half)
      → h.session.stage ≡ splicing
      → IsPiped p x up0 down0 (h.session, h.shared)
      → AfterHalf h
  halfway h st v = (Piped-IsCopying h.session h.shared st v, λ _. (st, v))

  module _ (io : Answers) (now : ℕ) (ne : p ≢ x) where
    splice_up-AfterHalf :
        (s : Session) (w : Shared)
        → s.stage ≡ splicing
        → IsPiped p x up0 down0 (s, w)
        → AfterHalf (splice_up io s w)
    splice_up-AfterHalf s w st v =
        splice_up_cases AfterHalf io s w
          (close-IsCopying io s w (Piped-IsFifo (s, w) v), λ e. ground (arith, e))
          (halfway (still s w) st v)
          (λ gone _ e.
            halfway (up_sent gone s w) (ground (arith, st))
              (up_sent-IsPiped p x up0 down0 gone s w ne e v))
          (λ fresh e _.
            halfway (up_received fresh s w) (ground (arith, st))
              (up_received-IsPiped p x up0 down0 fresh s w ne e v))

    splice_down-AfterHalf :
        (s : Session) (w : Shared)
        → s.stage ≡ splicing
        → IsPiped p x up0 down0 (s, w)
        → AfterHalf (splice_down io s w)
    splice_down-AfterHalf s w st v =
        splice_down_cases AfterHalf io s w
          (close-IsCopying io s w (Piped-IsFifo (s, w) v), λ e. ground (arith, e))
          (halfway (still s w) st v)
          (λ gone _ e.
            halfway (down_sent gone s w) (ground (arith, st))
              (down_sent-IsPiped p x up0 down0 gone s w ne e v))
          (λ fresh e _.
            halfway (down_received fresh s w) (ground (arith, st))
              (down_received-IsPiped p x up0 down0 fresh s w ne e v))

    splice_end-IsCopying :
        (moved : Bool) (s : Session) (w : Shared)
        → s.stage ≡ splicing
        → IsPiped p x up0 down0 (s, w)
        → IsCopying (splice_end io now moved s w)
    unfolding splice_end
    splice_end-IsCopying moved s w st v =
        let stop = s.ph_eof && length s.up == 0 && not s.px_shut in
        let s' = if stop then record s { px_shut = true } else s in
        let w' = if stop then record w { calls = on_fd s.px shuts w.calls } else w in
        let stopped : IsPiped p x up0 down0 (s', w') = record {
          ph = ground (arith, v.ph);
          px = ground (arith, v.px);
          up = ground (arith, v.up, in_shut p s.px w.calls, out_shut x s.px w.calls);
          down = ground (arith, v.down, in_shut x s.px w.calls, out_shut p s.px w.calls);
        } in
        if_cases IsCopying (s'.px_eof && length s'.down == 0)
          (λ _. close-IsCopying io s' w' (Piped-IsFifo (s', w') stopped))
          (λ _.
            if_cases (λ t. IsCopying (t, w')) moved
              (λ _.
                Piped-IsCopying (record s' { deadline = u32 (now + idle_ms) }) w'
                  (ground (arith, st))
                  (record {
                    ph = stopped.ph;
                    px = stopped.px;
                    up = stopped.up;
                    down = stopped.down;
                  }))
              (λ _. Piped-IsCopying s' w' (ground (arith, st)) stopped))

    splice-IsCopying :
        (s : Session) (w : Shared)
        → s.stage ≡ splicing
        → IsPiped p x up0 down0 (s, w)
        → IsCopying (splice io now s w)
    unfolding splice
    splice-IsCopying s w st v =
        let a = splice_up io s w in
        let b = splice_down io a.session a.shared in
        let up = splice_up-AfterHalf s w st v in
        if_cases IsCopying a.ended (λ _. up.0)
          (λ e.
            let (st', v') = up.1 e in
            let down = splice_down-AfterHalf a.session a.shared st' v' in
            if_cases IsCopying b.ended (λ _. down.0)
              (λ f.
                let (st'', v'') = down.1 f in
                splice_end-IsCopying (a.moved || b.moved) b.session b.shared st'' v''))

  serve_one-IsCopying :
      (a : Answers × ℕ) (r : Session × Shared) → p ≢ x → IsCopying r → IsCopying (serve_one a r)
  serve_one-IsCopying (io, now) (s, w) ne v =
      if_cases IsCopying s.used
        (λ u.
          let (st, piped) = v.1 u in
          subst IsCopying (sym (spliced (sess_fds s io) now s w st))
            (splice-IsCopying (sess_fds s io) now ne s w st piped))
        (λ _. v)

  serve_run-IsCopying :
      (ws : List (Answers × ℕ)) (r : Session × Shared)
      → p ≢ x
      → IsCopying r
      → IsCopying (serve_run ws r)
  unfolding serve_run
  serve_run-IsCopying [] r ne v = v
  serve_run-IsCopying (a ∷ ws) r ne v =
      serve_run-IsCopying ws (serve_one a r) ne (serve_one-IsCopying a r ne v)

-- From the start of the copying, over any rounds, the session refines two pipes that begin with what
-- is pending in its buffers: at every time what went out to the proxy is the start of what was pending
-- and what came from the phone, in order, and so the other way, also when the session has been closed;
-- and while the session is in use, what is left is exactly what its buffers hold. The two sockets are
-- different, and no call is counted from before the copying.
pub serve_run_refines :
    (p x : ℕ) (ws : List (Answers × ℕ)) (s : Session) (w : Shared)
    → p ≢ x
    → s.ph ≡ some p
    → s.px ≡ some x
    → s.stage ≡ splicing
    → w.calls ≡ []
    → IsCopying p x (pending_up s) (pending_down s) (serve_run ws (s, w))
unfolding bytes_in bytes_out
serve_run_refines p x ws s w ne hp hx st e =
    serve_run-IsCopying p x (pending_up s) (pending_down s) ws (s, w) ne
      (Piped-IsCopying p x (pending_up s) (pending_down s) s w st (record {
        ph = hp;
        px = hx;
        up = rw e (sym (append-nil (pending_up s)));
        down = rw e (sym (append-nil (pending_down s)));
      }))
