-- ===== src/Proxy/Session/Rounds.antt =====
-- What every session keeps, and what the sessions add up to, through the rounds of the relay task of
-- main/http_proxy.c.
use vetera_bridge.Prelude.{
  ℕ, suc, ◌+◌, ◌<◌, ◌≡◌, refl, subst, ◌⊎◌, inl, inr, Bool, true, false, not, ◌&&◌, Option, none,
  some, List, [], ◌∷◌, arith, ltb, if◌then◌else◌, Option-cases, if_cases, length, All,
}
use vetera_bridge.Proxy.Flow.{Flow, flow_mark_closed}
use vetera_bridge.Proxy.Session.{Session, opens, Shared, Answers, sess_close}
use vetera_bridge.Proxy.Session.Setup.{host_max}
use vetera_bridge.Proxy.Session.Heads.{HasTexts}
use vetera_bridge.Proxy.Session.Splice.{sess_service}
use vetera_bridge.Proxy.Session.Task.{
  min_free_heap, sess_fds, Arrival, accepted, place, refuse, redirected, do_accept, maybe_accept,
  each, is_past, expire, has_slot, Select, failed, timeout, ready, Round, serve_all, expire_all,
  proxy_round, rounds,
}

unfoldable pub total : (Session → ℕ) → List Session → ℕ
total M [] = 0
total M (s ∷ ss) = M s + total M ss

-- The texts of addresses that a round is given fit.
pub record IsRound (r : Round) : Type 0 where
  pub texts : (i : ℕ) → HasTexts (r.envs i)
  pub http_text : (a : Arrival) → r.http ≡ some a → length a.address < host_max
  pub https_text : (a : Arrival) → r.https ≡ some a → length a.address < host_max

-- What is to be shown of a predicate `Q` on sessions and of a sum `M` over them: `gone w + k` is `made w`
-- while the sessions add up to `k`.
pub record IsKept (Q : Session → Type 0) (M : Session → ℕ) (made gone : Shared → ℕ) : Type 0 where
  pub serve :
      (io : Answers) (now : ℕ) (s : Session) (w : Shared) (k : ℕ)
      → HasTexts io
      → s.used ≡ true
      → Q s
      → made w ≡ gone w + (M s + k)
      → let r = sess_service (sess_fds s io) now s w in Q r.0 × (made r.1 ≡ gone r.1 + (M r.0 + k))
  pub close :
      (io : Answers) (s : Session) (w : Shared) (k : ℕ)
      → s.used ≡ true
      → Q s
      → made w ≡ gone w + (M s + k)
      → let r = sess_close io s w in Q r.0 × (made r.1 ≡ gone r.1 + (M r.0 + k))
  pub accept :
      (a : Arrival) (tls : Bool) (ip now : ℕ) (w : Shared) (k : ℕ)
      → length a.address < host_max
      → made w ≡ gone w + k
      → let w' = record w { calls = opens a.fd ∷ w.calls; active = w.active + 1 } in
        Q (accepted a tls ip now) × (made w' ≡ gone w' + (M (accepted a tls ip now) + k))
  pub refuse_one :
      (a : Arrival) (w : Shared) (flows : List Flow) (k : ℕ)
      → made w ≡ gone w + k
      → let w' = record (refuse a w) { flows = flows } in made w' ≡ gone w' + k
  pub unused : (s : Session) → s.used ≡ false → M s ≡ 0

Select-cases : (t : Select) → (t ≡ failed) ⊎ ((t ≡ timeout) ⊎ (t ≡ ready))
Select-cases failed = inl refl
Select-cases timeout = inr (inl refl)
Select-cases ready = inr (inr refl)

module _ (Q : Session → Type 0) (M : Session → ℕ) (made gone : Shared → ℕ) where
  -- The sessions and what they share.
  abbrev pub Kept : List Session × Shared → Type 0
  Kept (ss, w) = All Q ss × (made w ≡ gone w + total M ss)

module _ {Q : Session → Type 0} {M : Session → ℕ} {made gone : Shared → ℕ}
    (laws : IsKept Q M made gone) where
  each-Kept :
      (f : ℕ → Session → Shared → Session × Shared)
      → ((i : ℕ) (s : Session) (w : Shared) (k : ℕ)
          → s.used ≡ true
          → Q s
          → made w ≡ gone w + (M s + k)
          → let r = f i s w in Q r.0 × (made r.1 ≡ gone r.1 + (M r.0 + k)))
      → (i k : ℕ) (ss : List Session) (w : Shared) → All Q ss
      → made w ≡ gone w + (total M ss + k)
      → let r = each f i ss w in All Q r.0 × (made r.1 ≡ gone r.1 + (total M r.0 + k))
  unfolding each total
  each-Kept f law i k [] w v e = (tt, e)
  each-Kept f law i k (s ∷ ss) w (v, vs) e =
      let step =
        λ (r : Session × Shared). Q r.0 × (made r.1 ≡ gone r.1 + (M r.0 + (total M ss + k))) in
      let r = if s.used then f i s w else (s, w) in
      let one : step r =
        if_cases step s.used (λ u. law i s w (total M ss + k) u v (omega (arith, e)))
          (λ _. (v, omega (arith, e))) in
      let before : made r.1 ≡ gone r.1 + (M r.0 + (total M ss + k)) = one.1 in
      let rest : (let q = each f (suc i) ss r.1 in
          All Q q.0 × (made q.1 ≡ gone q.1 + (total M q.0 + (M r.0 + k)))) =
        each-Kept f law (suc i) (M r.0 + k) ss r.1 vs (omega (arith, before)) in
      ((one.0, rest.0), omega (arith, rest.1))

  -- A list of slots after a new session took one.
  abbrev Placed : Session → List Session → Option (List Session) → Type 0
  Placed new ss none = Unit
  Placed new ss (some l) = All Q l × (total M l ≡ M new + total M ss)

  place-Placed :
      (new : Session) (ss : List Session) → Q new → All Q ss → Placed new ss (place new ss)
  unfolding place total
  place-Placed new [] h v = tt
  place-Placed new (s ∷ ss) h (v, vs) =
      if_cases (Placed new (s ∷ ss)) s.used
        (λ _. elim (Option-cases (place new ss)) [
          | inl e ↦ rw e tt
          | inr (l, e) ↦
              let rest = subst (Placed new ss) e (place-Placed new ss h vs) in
              rw e ((v, rest.0), omega (arith, rest.1))
        ])
        (λ u. ((h, vs), omega (arith, laws.unused s u)))

  do_accept-Kept :
      (a : Arrival) (tls : Bool) (now : ℕ) (ss : List Session) (w : Shared)
      → length a.address < host_max
      → Kept Q M made gone (ss, w)
      → Kept Q M made gone (do_accept a tls now ss w)
  unfolding do_accept
  do_accept-Kept a tls now ss w h (v, e) = elim (Option-cases (redirected a tls w)) [
    | inl miss ↦ rw (do_accept, miss) (v, laws.refuse_one a w w.flows (total M ss) e)
    | inr ((ip, port), hit) ↦
        let drop_it =
          laws.refuse_one a w (flow_mark_closed w.flows a.peer_port a.clock) (total M ss) e in
        let new = accepted a tls ip now in
        let (good, more) = laws.accept a tls ip now w (total M ss) h e in
        rw (do_accept, hit)
          (elim (Option-cases (place new ss)) [
            | inl full ↦ rw full (v, drop_it)
            | inr (l, there) ↦
                let placed = subst (Placed new ss) there (place-Placed new ss good v) in
                rw there (
                  if_cases (Kept Q M made gone) a.has_memory (λ _. (placed.0, rw placed.1 more))
                    (λ _. (v, drop_it)))
          ])
  ]

  maybe_accept-Kept :
      (o : Option Arrival) (tls : Bool) (now : ℕ) (r : List Session × Shared)
      → ((a : Arrival) → o ≡ some a → length a.address < host_max)
      → Kept Q M made gone r
      → Kept Q M made gone (maybe_accept o tls now r)
  maybe_accept-Kept none tls now r h v = v
  maybe_accept-Kept (some a) tls now (ss, w) h v = do_accept-Kept a tls now ss w (h a refl) v

  each_whole :
      (f : ℕ → Session → Shared → Session × Shared)
      → ((i : ℕ) (s : Session) (w : Shared) (k : ℕ)
          → s.used ≡ true
          → Q s
          → made w ≡ gone w + (M s + k)
          → let r = f i s w in Q r.0 × (made r.1 ≡ gone r.1 + (M r.0 + k)))
      → (ss : List Session) (w : Shared) → Kept Q M made gone (ss, w)
      → Kept Q M made gone (each f 0 ss w)
  each_whole f law ss w (v, e) =
      let r = each-Kept f law 0 0 ss w v (omega (arith, e)) in (r.0, omega (arith, r.1))

  expire_all-Kept :
      (r : Round) (p : List Session × Shared)
      → Kept Q M made gone p
      → Kept Q M made gone (expire_all r p)
  unfolding expire_all expire
  expire_all-Kept r (ss, w) v =
      each_whole (λ i s. expire (r.envs i) r.now s)
        (λ i s w k u q e.
          if_cases (λ (r : Session × Shared). Q r.0 × (made r.1 ≡ gone r.1 + (M r.0 + k)))
            (is_past r.now s.deadline) (λ _. laws.close (r.envs i) s w k u q e) (λ _. (q, e)))
        ss w v

  serve_all-Kept :
      (r : Round) (ss : List Session) (w : Shared)
      → IsRound r
      → Kept Q M made gone (ss, w)
      → Kept Q M made gone (serve_all r ss w)
  unfolding serve_all
  serve_all-Kept r ss w g v =
      let served =
        each_whole (λ i s. sess_service (sess_fds s (r.envs i)) r.now s)
          (λ i s w k u q e. laws.serve (r.envs i) r.now s w k (g.texts i) u q e) ss w v in
      if_cases (Kept Q M made gone) (has_slot ss && not (ltb r.free_heap min_free_heap))
        (λ _.
          maybe_accept-Kept r.https true r.now _ g.https_text
            (maybe_accept-Kept r.http false r.now _ g.http_text served))
        (λ _. served)

  pub proxy_round-Kept :
      (r : Round) (p : List Session × Shared)
      → IsRound r
      → Kept Q M made gone p
      → Kept Q M made gone (proxy_round r p)
  unfolding proxy_round
  proxy_round-Kept r (ss, w) g v = elim (Select-cases r.select) [
    | inl e ↦ rw (proxy_round, e) v
    | inr (inl e) ↦ rw (proxy_round, e) (expire_all-Kept r (ss, w) v)
    | inr (inr e) ↦ rw (proxy_round, e) (expire_all-Kept r _ (serve_all-Kept r ss w g v))
  ]

  pub rounds-Kept :
      (rs : List Round) (p : List Session × Shared)
      → All IsRound rs
      → Kept Q M made gone p
      → Kept Q M made gone (rounds rs p)
  unfolding rounds
  rounds-Kept [] p g v = v
  rounds-Kept (r ∷ rs) p (g, gs) v = rounds-Kept rs (proxy_round r p) gs (proxy_round-Kept r p g v)
