-- ===== src/Dns/Forward/Accepts.antt =====
-- Which datagram `dns_forward` of main/dns_fwd.c takes for the reply.
use mathlib.Core.Bool.{false≢true}
use vetera_bridge.Prelude.{
  ℕ, ◌+◌, ◌≤◌, ◌<◌, ◌≡◌, refl, sym, ap, ◌∙◌, ◌↔◌, ◌⊎◌, inl, inr, Bool, true, false, Option, none,
  some, List, [], ◌∷◌, ◌++◌, arith, ltb, if◌then◌else◌, ltb→lt, lt→ltb, Bool-cases, length, take,
  All,
}
use vetera_bridge.Dns.Cache.{dns_max_packet}
use vetera_bridge.Dns.Reply.{byte_at}
use vetera_bridge.Dns.Forward.{
  Endpoint, Recv, packet, again, failed, Round, drain, is_reply, wait_one, wait_reply, forward,
}

-- A datagram that answers the query: it comes from the address and the port of the server that was
-- asked, and has a header with the query's id.
pub record IsAnswer (q : List ℕ) (up : Endpoint) (p : List ℕ) (from : Endpoint) : Type 0 where
  pub from_ip : from.ip ≡ up.ip
  pub from_port : from.port ≡ up.port
  pub has_header : 12 ≤ length p
  pub id_high : byte_at p 0 ≡ byte_at q 0
  pub id_low : byte_at p 1 ≡ byte_at q 1

is_reply→IsAnswer :
    (q : List ℕ) (up : Endpoint) (p : List ℕ) (from : Endpoint)
    → is_reply q up p from ≡ true
    → IsAnswer q up p from
is_reply→IsAnswer q up p from h = ground (arith, h)

IsAnswer→is_reply :
    (q : List ℕ) (up : Endpoint) (p : List ℕ) (from : Endpoint)
    → IsAnswer q up p from
    → is_reply q up p from ≡ true
IsAnswer→is_reply q up p from a = ground (arith, a)

not_answer :
    (q : List ℕ) (up : Endpoint) (p : List ℕ) (from : Endpoint)
    → (IsAnswer q up p from → ⊥)
    → is_reply q up p from ≡ false
not_answer q up p from n = elim (Bool-cases (is_reply q up p from)) [
  | inl t ↦ absurd (n (is_reply→IsAnswer q up p from t))
  | inr f ↦ f
]

-- A round that the wait passes over: in time, and no error, and no answer to the query.
abbrev pub IsPassed : ℕ → List ℕ → Endpoint → Round → Type 0
IsPassed deadline q up r =
    (r.clock < deadline)
    × ((r.got ≡ again)
        ⊎ ((p : List ℕ) × (from : Endpoint) × (r.got ≡ packet p from)
            × (IsAnswer q up (take dns_max_packet p) from → ⊥)))

-- A round that ends the wait with a reply.
abbrev pub IsReply : ℕ → List ℕ → Endpoint → Round → List ℕ → Type 0
IsReply deadline q up r reply =
    (r.clock < deadline)
    × ((p : List ℕ) × (from : Endpoint) × (r.got ≡ packet p from)
        × IsAnswer q up (take dns_max_packet p) from
        × (reply ≡ take dns_max_packet p))

-- The reply stands in the rounds behind rounds that are all passed over.
pub record FirstReply (deadline : ℕ) (q : List ℕ) (up : Endpoint) (rounds : List Round)
    (reply : List ℕ) : Type 0 where
  pub before : List Round
  pub round : Round
  pub after : List Round
  pub split : rounds ≡ before ++ (round ∷ after)
  pub passed : All (IsPassed deadline q up) before
  pub replies : IsReply deadline q up round reply

module _ (deadline : ℕ) (q : List ℕ) (up : Endpoint) where
  behind :
      (r : Round) (rs : List Round) {reply : List ℕ}
      → IsPassed deadline q up r
      → FirstReply deadline q up rs reply
      → FirstReply deadline q up (r ∷ rs) reply
  behind r rs p f = record {
    before = r ∷ f.before;
    round = f.round;
    after = f.after;
    split = ap (λ l. r ∷ l) f.split;
    passed = (p, f.passed);
    replies = f.replies;
  }

  wait_one_sound :
      (r : Round) (got : Recv) (rs : List Round) (rest : Option (List ℕ)) {reply : List ℕ}
      → r.got ≡ got
      → r.clock < deadline
      → wait_one q up got rest ≡ some reply
      → (rest ≡ some reply → FirstReply deadline q up rs reply)
      → FirstReply deadline q up (r ∷ rs) reply
  unfolding wait_one
  wait_one_sound r (packet p from) rs rest e h w later =
      elim (Bool-cases (is_reply q up (take dns_max_packet p) from)) [
        | inl t ↦ record {
          before = [];
          round = r;
          after = rs;
          split = refl;
          passed = tt;
          replies = (
            h,
            (p, from, e, is_reply→IsAnswer q up (take dns_max_packet p) from t, ground arith),
          );
        }
        | inr f ↦
            behind r rs
              (
                h,
                inr (
                  p,
                  from,
                  e,
                  λ a. false≢true (sym f ∙ IsAnswer→is_reply q up (take dns_max_packet p) from a),
                ),
              )
              (later (rw f at w))
      ]
  wait_one_sound r again rs rest e h w later = behind r rs (h, inl e) (later w)
  wait_one_sound r failed rs rest e h w later = cc

  wait_reply_sound :
      (rounds : List Round) {reply : List ℕ}
      → wait_reply deadline q up rounds ≡ some reply
      → FirstReply deadline q up rounds reply
  unfolding wait_reply
  wait_reply_sound [] h = cc
  wait_reply_sound (r ∷ rs) h = elim (Bool-cases (ltb r.clock deadline)) [
    | inl t ↦
        wait_one_sound r r.got rs (wait_reply deadline q up rs) refl (ltb→lt _ _ t) (rw t at h)
          (λ k. wait_reply_sound rs k)
    | inr f ↦ cc (rw f at h)
  ]

  wait_reply_complete :
      (before : List Round) (round : Round) (after : List Round) {reply : List ℕ}
      → All (IsPassed deadline q up) before
      → IsReply deadline q up round reply
      → wait_reply deadline q up (before ++ (round ∷ after)) ≡ some reply
  unfolding wait_reply wait_one
  wait_reply_complete [] round after p r =
      let yes = IsAnswer→is_reply q up (take dns_max_packet r.1.0) r.1.1 r.1.3 in
      rw (lt→ltb _ _ r.0, r.1.2, yes) (ap some (sym r.1.4))
  wait_reply_complete (b ∷ bs) round after p r = elim p.0.1 [
    | inl e ↦ rw (lt→ltb _ _ p.0.0, e) (wait_reply_complete bs round after p.1 r)
    | inr (d, from, e, f) ↦
        rw (lt→ltb _ _ p.0.0, e, not_answer q up (take dns_max_packet d) from f)
          (wait_reply_complete bs round after p.1 r)
  ]

-- A query is answered from upstream exactly when it could be sent and, of what `recvfrom` gave after
-- the drain, a datagram before the deadline is from the upstream's address and port, has at least
-- twelve bytes and the query's id, and is preceded by nothing but timeouts and other datagrams in
-- time; then the reply is the first such datagram, cut to 512 bytes.
pub forward_iff :
    (q : List ℕ) (up : Endpoint) (sent : Bool) (start : ℕ) (rounds : List Round) (reply : List ℕ)
    → (forward q up sent start rounds ≡ some reply)
      ↔ ((sent ≡ true) × FirstReply (start + 2000000) q up (drain rounds) reply)
unfolding forward
forward_iff q up sent start rounds reply = (sound sent, complete sent)
  where
    sound :
        (s : Bool)
        → (if s then wait_reply (start + 2000000) q up (drain rounds) else none) ≡ some reply
        → (s ≡ true) × FirstReply (start + 2000000) q up (drain rounds) reply
    sound true h = (refl, wait_reply_sound (start + 2000000) q up (drain rounds) h)
    sound false h = cc

    complete :
        (s : Bool)
        → (s ≡ true) × FirstReply (start + 2000000) q up (drain rounds) reply
        → (if s then wait_reply (start + 2000000) q up (drain rounds) else none) ≡ some reply
    complete true f = rw f.1.split (
        wait_reply_complete (start + 2000000) q up f.1.before f.1.round f.1.after f.1.passed
          f.1.replies)
    complete false f = cc
