-- ===== src/Dns/Server/Sources.antt =====
-- Where the replies of main/dns_fwd.c come from.
use vetera_bridge.Prelude.{
  ℕ, ◌≤◌, ◌≡◌, refl, inl, inr, true, false, Option, none, some, List, [], ◌∷◌, ◌++◌, Memᴰ, arith,
  ltb, if◌then◌else◌, Bool-cases, length,
}
use vetera_bridge.Dns.Cache.{Cache, with_txid, cache_lookup, cache_clear}
use vetera_bridge.Dns.Cache.Entries.{IsPacket}
use vetera_bridge.Dns.Cache.History.{
  Op, save, Answer, Fits, Holds, cache_lookup-Holds, cache_store-Holds, cache_clear-Holds,
  cache_lookup_serves,
}
use vetera_bridge.Dns.Reply.{make_captive_reply, make_servfail_reply}
use vetera_bridge.Dns.Server.{
  Input, cached, upstream, upstream_failed, captive, Output, upstream_reply, local_reply,
  answer_miss, answer, serve_pass, serve_all,
}

-- The upstream answers that the passes stored, in order.
unfoldable pub answer_of : Input → Option Output → List Op
answer_of i none = []
answer_of i (some o) = elim o.source [ upstream ↦ save i.query o.reply i.stored_at ∷ [] | _ ↦ [] ]

unfoldable pub upstream_answers : Cache → List Input → List Op
upstream_answers c [] = []
upstream_answers c (i ∷ is) =
    answer_of i (serve_pass c i).0 ++ upstream_answers (serve_pass c i).1 is

mem-append_left : {a : Op} (xs ys : List Op) → Memᴰ a xs → Memᴰ a (xs ++ ys)
mem-append_left [] ys m = elim m [ ]
mem-append_left (x ∷ xs) ys (Memᴰ.head e) = Memᴰ.head e
mem-append_left (x ∷ xs) ys (Memᴰ.tail m) = Memᴰ.tail (mem-append_left xs ys m)

mem-append_right : {a : Op} (xs ys : List Op) → Memᴰ a ys → Memᴰ a (xs ++ ys)
mem-append_right [] ys m = m
mem-append_right (x ∷ xs) ys m = Memᴰ.tail (mem-append_right xs ys m)

module _ (history : List Op) where
  answer_miss-Holds :
      (c : Cache) (i : Input) (r : Option (List ℕ))
      → ((op : Op) → Memᴰ op (answer_of i (answer_miss c i r).0) → Memᴰ op history)
      → Holds history c
      → Holds history (answer_miss c i r).1
  unfolding answer_miss answer_of
  answer_miss-Holds c i none m h = h
  answer_miss-Holds c i (some r) m h =
      cache_store-Holds history c i.query r i.stored_at (m _ (Memᴰ.head refl)) h

  answer-Holds :
      (i : Input) (r : Option (List ℕ)) (c : Cache)
      → ((op : Op) → Memᴰ op (answer_of i (answer i (r, c)).0) → Memᴰ op history)
      → Holds history c
      → Holds history (answer i (r, c)).1
  unfolding answer
  answer-Holds i (some r) c m h = h
  answer-Holds i none c m h = answer_miss-Holds c i _ m h

  serve_pass-Holds :
      (c : Cache) (i : Input)
      → ((op : Op) → Memᴰ op (answer_of i (serve_pass c i).0) → Memᴰ op history)
      → Holds history c
      → Holds history (serve_pass c i).1
  unfolding serve_pass
  serve_pass-Holds c i m h = elim (Bool-cases (ltb (length i.query) 12)) [
    | inl t ↦ rw t h
    | inr f ↦ rw f (
        answer-Holds i (cache_lookup c i.query i.now).0 (cache_lookup c i.query i.now).1 (rw f at m)
          (cache_lookup-Holds history c i.query i.now h))
  ]

  serve_all-Holds :
      (is : List Input) (c : Cache)
      → ((op : Op) → Memᴰ op (upstream_answers c is) → Memᴰ op history)
      → Holds history c
      → Holds history (serve_all c is)
  unfolding serve_all upstream_answers
  serve_all-Holds [] c m h = h
  serve_all-Holds (i ∷ is) c m h =
      serve_all-Holds is (serve_pass c i).1
        (λ op k. m op (
          mem-append_right (answer_of i (serve_pass c i).0) (upstream_answers (serve_pass c i).1 is)
            k))
        (serve_pass-Holds c i
          (λ op k. m op (mem-append_left _ (upstream_answers (serve_pass c i).1 is) k)) h)

-- What a reply is, by its source.
pub record Sourced (history : List Op) (i : Input) (o : Output) : Type 0 where
  pub from_cache :
      o.source ≡ cached
      → (a : Answer) × Fits history i.query i.now a × (o.reply ≡ with_txid i.query a.reply)
  pub from_upstream : o.source ≡ upstream → (i.wifi_up ≡ true) × (upstream_reply i ≡ some o.reply)
  pub from_failure :
      o.source ≡ upstream_failed → (i.wifi_up ≡ true) × (o.reply ≡ make_servfail_reply i.query 512)
  pub from_captive :
      o.source ≡ captive → (i.wifi_up ≡ false) × (o.reply ≡ make_captive_reply i.query 512)

module _ (history : List Op) (i : Input) where
  answer_miss-Sourced :
      (c : Cache) (r : Option (List ℕ)) {o : Output}
      → r ≡ (if i.wifi_up then upstream_reply i else none)
      → (answer_miss c i r).0 ≡ some o
      → Sourced history i o
  unfolding answer_miss local_reply
  answer_miss-Sourced c none {o} e h = record {
    from_cache = λ k. absurd (ground arith);
    from_upstream = λ k. ground arith;
    from_failure = λ k. ground arith;
    from_captive = λ k. ground arith;
  }
  answer_miss-Sourced c (some r) {o} e h = record {
    from_cache = λ k. absurd (ground arith);
    from_upstream = λ k. ground arith;
    from_failure = λ k. ground arith;
    from_captive = λ k. ground arith;
  }

  answer-Sourced :
      (c c' : Cache) (r : Option (List ℕ)) {o : Output}
      → Holds history c
      → IsPacket i.query
      → (cache_lookup c i.query i.now).0 ≡ r
      → (answer i (r, c')).0 ≡ some o
      → Sourced history i o
  unfolding answer
  answer-Sourced c c' none holds k e h = answer_miss-Sourced c' _ refl h
  answer-Sourced c c' (some r) {o} holds k e h =
      let same : r ≡ o.reply = ground arith in
      record {
        from_cache = λ s. cache_lookup_serves history c i.query i.now holds k (rw same at e);
        from_upstream = λ s. ground arith;
        from_failure = λ s. ground arith;
        from_captive = λ s. ground arith;
      }

-- After any passes of the server from an empty cache, a reply to a query of at most 512 bytes comes
-- from where its source says. A cached one answers the same question by the reply of an earlier
-- pass to the upstream, at most 60 seconds old, under the query's id. An upstream one was received
-- for this query, with WiFi up. With WiFi up, all other queries get the SERVFAIL reply and never
-- the bridge's address; the captive reply is given with WiFi down alone.
pub replies-Sourced :
    (is : List Input) (i : Input) {o : Output}
    → length i.query ≤ 512
    → (serve_pass (serve_all cache_clear is) i).0 ≡ some o
    → Sourced (upstream_answers cache_clear is) i o
unfolding serve_pass
replies-Sourced is i fit h = elim (Bool-cases (ltb (length i.query) 12)) [
  | inl t ↦ cc (rw t at h)
  | inr f ↦
      let history = upstream_answers cache_clear is in
      let c = serve_all cache_clear is in
      answer-Sourced history i c (cache_lookup c i.query i.now).1 (cache_lookup c i.query i.now).0
        (serve_all-Holds history is cache_clear (λ op m. m) (cache_clear-Holds history))
        (ground arith, fit) refl (rw f at h)
]
