-- ===== src/Proxy/Session/Kept.antt =====
-- The relay of main/http_proxy.c over any rounds of its task: buffers, sockets and the count of sessions.
use vetera_bridge.Prelude.{ℕ, ◌+◌, ◌<◌, ◌≡◌, refl, inl, inr, Bool, none, List, arith, length, All}
use vetera_bridge.Proxy.Flow.{Flow}
use vetera_bridge.Proxy.Settings.{Settings}
use vetera_bridge.Proxy.Session.{head, Session, no_session, Shared, Answers, sess_close}
use vetera_bridge.Proxy.Session.Setup.{host_max}
use vetera_bridge.Proxy.Session.Heads.{HasTexts}
use vetera_bridge.Proxy.Session.Buffers.{IsBuffered, sess_service-IsBuffered}
use vetera_bridge.Proxy.Session.Halves.{Stage-cases}
use vetera_bridge.Proxy.Session.Steps.{sess_service-P}
use vetera_bridge.Proxy.Session.Task.{
  sess_fds, Arrival, accepted, Round, rounds, no_sessions, at_start,
}
use vetera_bridge.Proxy.Session.Rounds.{total, IsRound, IsKept, Kept, rounds-Kept}
use vetera_bridge.Proxy.Session.Sockets.{
  times_opened, times_closed, held_by, one_if_used, Balanced, close-Balanced, Balanced-IsStepped,
  Counted, Counted-IsStepped,
}

abbrev pub IsSound : Session → Type 0
IsSound s = IsBuffered s × (s.stage ≡ head → s.px ≡ none)

sess_fds-HasTexts : (s : Session) (io : Answers) → HasTexts io → HasTexts (sess_fds s io)
unfolding sess_fds
sess_fds-HasTexts s io t = elim (Stage-cases s.stage) [
  | inl e ↦ rw (sess_fds, e) t
  | inr (inl e) ↦ rw (sess_fds, e) t
  | inr (inr (inl e)) ↦ rw (sess_fds, e) t
  | inr (inr (inr e)) ↦ rw (sess_fds, e) t
]

accepted-IsSound :
    (a : Arrival) (tls : Bool) (ip now : ℕ)
    → length a.address < host_max
    → IsSound (accepted a tls ip now)
unfolding accepted
accepted-IsSound a tls ip now h = ground (arith, h)

no_session-IsSound : IsSound no_session
no_session-IsSound = ground arith

sockets-IsKept :
    (fd : ℕ)
    → IsKept IsSound (held_by fd) (λ w. times_opened fd w.calls) (λ w. times_closed fd w.calls)
unfolding times_opened times_closed accepted sess_close
sockets-IsKept fd = record {
  serve = λ io now s w k t u q e.
      let io' = sess_fds s io in
      let t' = sess_fds-HasTexts s io t in
      let v =
        sess_service-P (Balanced fd k) io' (Balanced-IsStepped fd k io') now s w u t' q.0 q.1
          (q.1, e) in
      ((sess_service-IsBuffered io' now s w t' q.0, v.0), v.1);
  close = λ io s w k u q e. (no_session-IsSound, (close-Balanced fd k io s w u (q.1, e)).1);
  accept = λ a tls ip now w k h e. (accepted-IsSound a tls ip now h, ground (arith, e));
  refuse_one = λ a w flows k e. ground (arith, e);
  unused = λ s u. ground (arith, u);
}

active-IsKept : IsKept IsSound one_if_used (λ w. w.active) (λ w. 0)
unfolding accepted sess_close
active-IsKept = record {
  serve = λ io now s w k t u q e.
      let io' = sess_fds s io in
      let t' = sess_fds-HasTexts s io t in
      let v =
        sess_service-P (Counted k) io' (Counted-IsStepped k io') now s w u t' q.0 q.1
          (q.1, omega (arith, e)) in
      ((sess_service-IsBuffered io' now s w t' q.0, v.0), omega (arith, v.1));
  close = λ io s w k u q e. (no_session-IsSound, ground (arith, u, e));
  accept = λ a tls ip now w k h e. (accepted-IsSound a tls ip now h, ground (arith, e));
  refuse_one = λ a w flows k e. ground (arith, e);
  unused = λ s u. ground (arith, u);
}

start-Kept :
    (M : Session → ℕ) (made gone : Shared → ℕ) (w : Shared)
    → M no_session ≡ 0
    → made w ≡ 0
    → gone w ≡ 0
    → Kept IsSound M made gone (no_sessions, w)
unfolding no_sessions total
start-Kept M made gone w h m g =
    let v = no_session-IsSound in ((v, (v, (v, (v, tt)))), omega (arith, h, m, g))

module _ (rs : List Round) (flows : List Flow) (settings : Settings) (g : All IsRound rs) where
  -- The slots and what they share after the rounds.
  abbrev pub after : List Session × Shared
  after = rounds rs (no_sessions, at_start flows settings)

  from_start :
      {M : Session → ℕ} {made gone : Shared → ℕ} (laws : IsKept IsSound M made gone)
      → M no_session ≡ 0
      → made (at_start flows settings) ≡ 0
      → gone (at_start flows settings) ≡ 0
      → Kept IsSound M made gone after
  from_start {M} {made} {gone} laws h m n =
      rounds-Kept laws rs (no_sessions, at_start flows settings) g
        (start-Kept M made gone (at_start flows settings) h m n)

  -- After any rounds of the task, whatever the phone and the proxy send and however the calls answer,
  -- the buffers of every session hold what they should: no more bytes than their size, offsets within
  -- them, a host that fits with its NUL; and while a head or a reply is read, there is room for a byte
  -- more, so that no receive is asked for nothing and taken for the end of the stream. The texts of
  -- addresses are shorter than 80 bytes.
  pub rounds-IsSound : All IsSound after.0
  unfolding at_start
  rounds-IsSound = (from_start active-IsKept refl refl refl).0

  -- After any rounds of the task, every socket was opened as often as it was closed and is now held
  -- by sessions in use: none leaks, and none is closed more often than opened. The count of active sessions is the
  -- number of slots in use. The texts of addresses are shorter than 80 bytes.
  pub rounds_sockets :
      ((fd : ℕ)
        → times_opened fd after.1.calls
          ≡ times_closed fd after.1.calls + total (held_by fd) after.0)
      × (after.1.active ≡ total one_if_used after.0)
  unfolding at_start times_opened times_closed
  rounds_sockets =
      let count = (from_start active-IsKept refl refl refl).1 in
      ((λ fd. (from_start (sockets-IsKept fd) refl refl refl).1), omega (arith, count))
