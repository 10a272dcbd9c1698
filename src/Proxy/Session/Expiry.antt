-- ===== src/Proxy/Session/Expiry.antt =====
-- The deadlines of main/http_proxy.c: a session on which nothing moves ends at its own, and not before.
use mathlib.Core.Option.{some-injective, none-ne-some}
use vetera_bridge.Prelude.{
  ℕ, zero, suc, ◌+◌, ◌≤◌, ◌<◌, ◌≡◌, refl, sym, ap, ◌∙◌, ◌≢◌, ◌⊎◌, inl, inr, Bool, true, false, not,
  ◌&&◌, Option, none, some, List, [], ◌∷◌, arith, ltb, ◌==◌, if◌then◌else◌, Bool-cases,
  Option-cases, if_cases, length, get_elem?, All, u32,
}
use vetera_bridge.Proxy.Session.{
  Stage, head, connecting, reply, splicing, Session, no_session, Shared, Answers, sess_close,
}
use vetera_bridge.Proxy.Session.Splice.{
  still, splice_up, splice_down, splice_end, splice, sess_service,
}
use vetera_bridge.Proxy.Session.Task.{
  min_free_heap, sess_fds, Arrival, accepted, place, redirected, do_accept, maybe_accept, each,
  is_past, expire, has_slot, Select, failed, timeout, ready, Round, serve_all, expire_all,
  proxy_round, rounds,
}

-- `select` says of no socket of the session that it is ready.
pub record IsSilent (io : Answers) : Type 0 where
  pub no_phone_input : io.ph_readable ≡ false
  pub no_phone_room : io.ph_writable ≡ false
  pub no_proxy_input : io.px_readable ≡ false
  pub no_proxy_room : io.px_writable ≡ false

-- No end of a stream is left to be passed on, as it is after every service.
pub record IsSettled (s : Session) : Type 0 where
  pub no_shut : (s.ph_eof && length s.up == 0 && not s.px_shut) ≡ false
  pub no_end : (s.px_eof && length s.down == 0) ≡ false

silent_up :
    (io : Answers) (s : Session) (w : Shared)
    → io.px_writable ≡ false
    → io.ph_readable ≡ false
    → splice_up io s w ≡ still s w
unfolding splice_up
silent_up io s w h k = ground (arith, h, k)

silent_down :
    (io : Answers) (s : Session) (w : Shared)
    → io.ph_writable ≡ false
    → io.px_readable ≡ false
    → splice_down io s w ≡ still s w
unfolding splice_down
silent_down io s w h k = ground (arith, h, k)

silent_splice :
    (io : Answers) (now : ℕ) (s : Session) (w : Shared)
    → IsSilent io
    → IsSettled s
    → splice io now s w ≡ (s, w)
unfolding splice splice_end
silent_splice io now s w q k =
    rw
      (
        silent_up io s w q.no_proxy_room q.no_phone_input,
        silent_down io s w q.no_phone_room q.no_proxy_input,
        k.no_shut,
        k.no_end,
      )
      refl

sess_fds-IsSilent : (s : Session) (io : Answers) → IsSilent io → IsSilent (sess_fds s io)
unfolding sess_fds
sess_fds-IsSilent s io q = ground (arith, q)

service_in :
    (st : Stage) (io : Answers) (now : ℕ) (s : Session) (w : Shared)
    → s.stage ≡ st
    → IsSilent io
    → IsSettled s
    → sess_service io now s w ≡ (s, w)
unfolding sess_service
service_in head io now s w e q k = rw (e, q.no_phone_input) refl
service_in connecting io now s w e q k = rw (e, q.no_proxy_room) refl
service_in reply io now s w e q k = rw (e, q.no_proxy_input) refl
service_in splicing io now s w e q k = rw e (
    silent_splice io now (record s { stage = splicing }) w q
      (record { no_shut = k.no_shut; no_end = k.no_end }))

-- What `each` leaves in the slot `i`, with its index in the whole array.
each_at :
    (f : ℕ → Session → Shared → Session × Shared) (j i k : ℕ) (ss : List Session) (w : Shared)
    (s : Session)
    → k ≡ j + i
    → s.used ≡ true
    → get_elem? ss i ≡ some s
    → (v : Shared) × (get_elem? (each f j ss w).0 i ≡ some (f k s v).0)
unfolding each
each_at f j i k [] w s at u e = absurd (none-ne-some _ e)
each_at f j zero k (t ∷ ss) w s at u e =
    let here : t ≡ s = some-injective _ _ e in
    let same : j ≡ k = omega arith in (w, rw (here, same, u) refl)
each_at f j (suc i) k (t ∷ ss) w s at u e =
    each_at f (suc j) i k ss (if t.used then f j t w else (t, w)).1 s (omega arith) u e

-- A new session goes into the first slot that is not used, and the others stay.
place_used :
    (new t : Session) (ss l : List Session)
    → t.used ≡ true
    → place new (t ∷ ss) ≡ some l
    → (l' : List Session) × (place new ss ≡ some l') × (l ≡ t ∷ l')
unfolding place
place_used new t ss l u h = elim (Option-cases (place new ss)) [
  | inl n ↦ absurd (none-ne-some _ (rw (u, n) at h))
  | inr (l', p) ↦ (l', p, sym (some-injective _ _ (rw (u, p) at h)))
]

place_free :
    (new t : Session) (ss l : List Session)
    → t.used ≡ false
    → place new (t ∷ ss) ≡ some l
    → l ≡ new ∷ ss
unfolding place
place_free new t ss l u h = sym (some-injective _ _ (rw u at h))

place_at :
    (new : Session) (ss l : List Session) (i : ℕ) (s : Session)
    → place new ss ≡ some l
    → s.used ≡ true
    → get_elem? ss i ≡ some s
    → get_elem? l i ≡ some s
place_at new [] l i s h u e = absurd (none-ne-some _ e)
place_at new (t ∷ ss) l zero s h u e =
    let here : t ≡ s = some-injective _ _ e in
    let (l', p, at) = place_used new t ss l (rw here u) h in rw at e
place_at new (t ∷ ss) l (suc i) s h u e = elim (Bool-cases t.used) [
  | inl taken ↦
      let (l', p, at) = place_used new t ss l taken h in rw at (place_at new ss l' i s p u e)
  | inr free ↦ rw (place_free new t ss l free h) e
]

accept_at :
    (a : Arrival) (tls : Bool) (now i : ℕ) (ss : List Session) (w : Shared) (s : Session)
    → s.used ≡ true
    → get_elem? ss i ≡ some s
    → get_elem? (do_accept a tls now ss w).0 i ≡ some s
unfolding do_accept
accept_at a tls now i ss w s u e = elim (Option-cases (redirected a tls w)) [
  | inl n ↦ rw (do_accept, n) e
  | inr (to, r) ↦
      rw (do_accept, r)
        (elim (Option-cases (place (accepted a tls to.0 now) ss)) [
          | inl n ↦ rw n e
          | inr (l, p) ↦ rw p (
              if_cases (λ (x : List Session × Shared). get_elem? x.0 i ≡ some s) a.has_memory
                (λ _. place_at (accepted a tls to.0 now) ss l i s p u e) (λ _. e))
        ])
]

maybe_accept_at :
    (o : Option Arrival) (tls : Bool) (now i : ℕ) (p : List Session × Shared) (s : Session)
    → s.used ≡ true
    → get_elem? p.0 i ≡ some s
    → get_elem? (maybe_accept o tls now p).0 i ≡ some s
maybe_accept_at none tls now i (ss, w) s u e = e
maybe_accept_at (some a) tls now i (ss, w) s u e = accept_at a tls now i ss w s u e

serve_all_at :
    (q : Round) (i : ℕ) (ss : List Session) (w : Shared) (s : Session)
    → IsSilent (q.envs i)
    → IsSettled s
    → s.used ≡ true
    → get_elem? ss i ≡ some s
    → get_elem? (serve_all q ss w).0 i ≡ some s
unfolding serve_all
serve_all_at q i ss w s quiet k u e =
    let (v, h) =
      each_at (λ i s. sess_service (sess_fds s (q.envs i)) q.now s) 0 i i ss w s (omega arith) u
        e in
    let io = sess_fds s (q.envs i) in
    let stays =
      h
      ∙ ap some (
          ap (λ x. x.0)
            (service_in s.stage io q.now s v refl (sess_fds-IsSilent s (q.envs i) quiet) k)) in
    if_cases (λ (x : List Session × Shared). get_elem? x.0 i ≡ some s)
      (has_slot ss && not (ltb q.free_heap min_free_heap))
      (λ _.
        maybe_accept_at q.https true q.now i _ s u
          (maybe_accept_at q.http false q.now i _ s u stays))
      (λ _. stays)

-- What the check of the deadlines leaves of a session.
abbrev checked : ℕ → Session → Session
checked now s = if is_past now s.deadline then no_session else s

expire_all_at :
    (q : Round) (i : ℕ) (p : List Session × Shared) (s : Session)
    → s.used ≡ true
    → get_elem? p.0 i ≡ some s
    → get_elem? (expire_all q p).0 i ≡ some (checked q.now s)
unfolding expire_all expire sess_close
expire_all_at q i (ss, w) s u e =
    let (v, h) = each_at (λ k s. expire (q.envs k) q.now s) 0 i i ss w s (omega arith) u e in
    h ∙ ap some (ground arith)

-- A round in which nothing is ready for the session, whatever others do.
silent_round :
    (c : Select) (q : Round) (i : ℕ) (p : List Session × Shared) (s : Session)
    → q.select ≡ c
    → IsSilent (q.envs i)
    → IsSettled s
    → s.used ≡ true
    → get_elem? p.0 i ≡ some s
    → ((c ≡ failed) × (get_elem? (proxy_round q p).0 i ≡ some s))
      ⊎ (get_elem? (proxy_round q p).0 i ≡ some (checked q.now s))
unfolding proxy_round
silent_round failed q i (ss, w) s c quiet k u e = inl (refl, rw (proxy_round, c) e)
silent_round timeout q i (ss, w) s c quiet k u e =
    inr (rw (proxy_round, c) (expire_all_at q i (ss, w) s u e))
silent_round ready q i (ss, w) s c quiet k u e = inr (
    rw (proxy_round, c)
      (expire_all_at q i (serve_all q ss w) s u (serve_all_at q i ss w s quiet k u e)))

-- The clock and the deadline as milliseconds that do not wrap, about 2^31 apart at most.
not_past : (t due : ℕ) → t ≤ due → due ≤ t + 2147483648 → is_past (u32 t) (u32 due) ≡ false
not_past t due early near = ground arith

past : (t due : ℕ) → due < t → t < due + 2147483648 → is_past (u32 t) (u32 due) ≡ true
past t due late near = ground arith

-- A round at the time `at` in which nothing is ready for the slot.
pub record IsQuiet (i : ℕ) (q : Round) (at : ℕ) : Type 0 where
  pub clock : q.now ≡ u32 at
  pub silent : IsSilent (q.envs i)

-- Such a round, up to the deadline.
abbrev pub IsEarly : ℕ → ℕ → Round → Type 0
IsEarly i due q = (at : ℕ) × IsQuiet i q at × (at ≤ due) × (due ≤ at + 2147483648)

stays :
    (qs : List Round) (i due : ℕ) (p : List Session × Shared) (s : Session)
    → get_elem? p.0 i ≡ some s
    → s.used ≡ true
    → IsSettled s
    → s.deadline ≡ u32 due
    → All (IsEarly i due) qs
    → get_elem? (rounds qs p).0 i ≡ some s
unfolding rounds
stays [] i due p s e u k d g = e
stays (q ∷ qs) i due p s e u k d ((at, quiet, early, near), gs) =
    let open_still : is_past q.now s.deadline ≡ false =
      rw (quiet.clock, d) (not_past at due early near) in
    stays qs i due (proxy_round q p) s
      (elim (silent_round q.select q i p s refl quiet.silent k u e) [
        | inl f ↦ f.1
        | inr h ↦ h ∙ ap some (rw open_still refl)
      ])
      u k d gs

-- A session on which nothing moves is left as it is in every round up to its deadline, whatever the other
-- sessions do and whoever connects, and is closed in the first round after it whose `select` does not
-- fail. The clock, a uint32, may wrap: the rounds are at most 2^31 milliseconds before the deadline, the
-- last one less than that after it. No end of a stream is left to be passed on at first.
pub silent_session_ends :
    (qs : List Round) (r : Round) (i due at : ℕ) (p : List Session × Shared) (s : Session)
    → get_elem? p.0 i ≡ some s
    → s.used ≡ true
    → IsSettled s
    → s.deadline ≡ u32 due
    → All (IsEarly i due) qs
    → IsQuiet i r at
    → due < at
    → at < due + 2147483648
    → r.select ≢ failed
    → (get_elem? (rounds qs p).0 i ≡ some s)
      × (get_elem? (proxy_round r (rounds qs p)).0 i ≡ some no_session)
silent_session_ends qs r i due at p s e u k d early quiet late near works =
    let still_there = stays qs i due p s e u k d early in
    let over : is_past r.now s.deadline ≡ true = rw (quiet.clock, d) (past at due late near) in
    (
      still_there,
      elim (silent_round r.select r i (rounds qs p) s refl quiet.silent k u still_there) [
        | inl f ↦ absurd (works f.0)
        | inr h ↦ h ∙ ap some (rw over refl)
      ],
    )
