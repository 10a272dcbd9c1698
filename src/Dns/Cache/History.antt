-- ===== src/Dns/Cache/History.antt =====
-- The cache of main/dns_fwd.c against its history: the stores and lookups that made it.
use vetera_bridge.Prelude.{
  ℕ, zero, suc, ◌≤◌, ◌<◌, ◌≡◌, refl, sym, ◌∙◌, subst, inl, inr, true, false, Option, none, some,
  List, [], ◌∷◌, Memᴰ, arith, ltb, Bool-cases, length, set, take, replicate, All, length-set,
  take_of_le, u16, sub32,
}
use vetera_bridge.Dns.Cache.{
  dns_cache_size, Entry, Cache, Verdict, skip, expired, hit, question, judge, with_txid, serve,
  lookup_from, cache_lookup, zero_txid, stored, is_cacheable, cache_store, no_entry, cache_clear,
}
use vetera_bridge.Dns.Cache.Entries.{
  IsPacket, length-zero_txid, with_txid-zero_txid, judge_hit_inv, judge_valid,
  is_cacheable-IsPacket,
}

-- A call of `dns_cache_lookup` or of `dns_cache_store`, with the clock that it reads.
pub data Op : Type 0 where
  ask : List ℕ → ℕ → Op
  save : List ℕ → List ℕ → ℕ → Op

unfoldable pub run_op : Cache → Op → Cache
run_op c (ask q now) = (cache_lookup c q now).1
run_op c (save q r now) = cache_store c q r now

unfoldable pub run_ops : Cache → List Op → Cache
run_ops c [] = c
run_ops c (op ∷ ops) = run_ops (run_op c op) ops

-- An upstream answer for a query, as `dns_cache_store` was given it.
pub record Answer : Type 0 where
  pub query : List ℕ
  pub reply : List ℕ
  pub time : ℕ

-- An answer in the history that fits a query at a moment.
pub record Fits (history : List Op) (q : List ℕ) (now : ℕ) (a : Answer) : Type 0 where
  pub saved : Memᴰ (save a.query a.reply a.time) history
  pub same_question : question a.query ≡ question q
  pub same_length : length a.query ≡ length q
  pub young : sub32 now a.time ≤ 60000
  pub packet : IsPacket a.reply

-- A valid entry is one that the history stored.
abbrev pub From : List Op → Entry → Type 0
From history e =
    e.valid ≡ true
    → (a : Answer) × Memᴰ (save a.query a.reply a.time) history
      × IsPacket a.query
      × IsPacket a.reply
      × (e ≡ stored a.query a.reply a.time)

module _ (history : List Op) where
  From-invalidated : (e : Entry) → From history (record e { valid = false })
  From-invalidated e h = cc

  serve-From :
      (v : Verdict) (e : Entry) (es : List Entry) (q : List ℕ) (rest : Option (List ℕ) × List Entry)
      → All (From history) (e ∷ es)
      → All (From history) rest.1
      → All (From history) (serve v e es q rest).1
  unfolding serve
  serve-From skip e es q (r, es') h k = (h.0, k)
  serve-From expired e es q (r, es') h k = (From-invalidated e, k)
  serve-From hit e es q rest h k = h

  lookup_from-From :
      (es : List Entry) (q : List ℕ) (now : ℕ)
      → All (From history) es
      → All (From history) (lookup_from es q now).1
  unfolding lookup_from
  lookup_from-From [] q now h = tt
  lookup_from-From (e ∷ es) q now h =
      serve-From (judge e q now) e es q (lookup_from es q now) h (lookup_from-From es q now h.1)

  set-From :
      (es : List Entry) (i : ℕ) (e : Entry)
      → All (From history) es
      → From history e
      → All (From history) (set es i e)
  set-From [] i e h k = tt
  set-From (x ∷ es) zero e h k = (k, h.1)
  set-From (x ∷ es) (suc i) e h k = (h.0, set-From es i e h.1 k)

length-lookup_from :
    (es : List Entry) (q : List ℕ) (now : ℕ) → length (lookup_from es q now).1 ≡ length es
unfolding lookup_from serve
length-lookup_from [] q now = refl
length-lookup_from (e ∷ es) q now = ground (arith, length-lookup_from es q now)

-- What holds of a cache with its history.
pub record Holds (history : List Op) (c : Cache) : Type 0 where
  pub size : length c.entries ≡ 16
  pub next_in : c.next < 16
  pub from : All (From history) c.entries

-- A lookup is given what one entry answers, and what the later entries do.
unfoldable pub Serves : List Op → List ℕ → ℕ → Option (List ℕ) → Type 0
Serves history q now none = Unit
Serves history q now (some r) = (a : Answer) × Fits history q now a × (r ≡ with_txid q a.reply)

take-reply : (r : List ℕ) → IsPacket r → take (u16 (length r)) (zero_txid r) ≡ zero_txid r
take-reply r k = take_of_le _ (zero_txid r) (omega (arith, length-zero_txid r))

module _ (history : List Op) (q : List ℕ) (now : ℕ) (packet : IsPacket q) where
  stored-Serves :
      (a : Answer)
      → Memᴰ (save a.query a.reply a.time) history
      → IsPacket a.query
      → IsPacket a.reply
      → judge (stored a.query a.reply a.time) q now ≡ hit
      → Serves history q now (
          some (
            with_txid q
              (take (stored a.query a.reply a.time).rlen (stored a.query a.reply a.time).reply)))
  unfolding Serves stored
  stored-Serves a m kq kr v =
      let fit = judge_hit_inv a.query a.reply q a.time now kq.0 kq.1 packet.0 packet.1 v in
      (
        a,
        record {
          saved = m;
          same_question = fit.0;
          same_length = fit.1;
          young = fit.2;
          packet = kr;
        },
        rw (take-reply a.reply kr) (with_txid-zero_txid q a.reply),
      )

  hit-Serves :
      (e : Entry)
      → From history e
      → judge e q now ≡ hit
      → Serves history q now (some (with_txid q (take e.rlen e.reply)))
  hit-Serves e h v =
      let (a, m, kq, kr, made) = h (judge_valid e q now v) in
      subst
        (λ (x : Entry).
          judge x q now ≡ hit → Serves history q now (some (with_txid q (take x.rlen x.reply))))
        (sym made) (stored-Serves a m kq kr) v

  serve-Serves :
      (v : Verdict) (e : Entry) (es : List Entry) (rest : Option (List ℕ) × List Entry)
      → (v ≡ hit → Serves history q now (some (with_txid q (take e.rlen e.reply))))
      → Serves history q now rest.0
      → Serves history q now (serve v e es q rest).0
  unfolding serve
  serve-Serves skip e es (r, es') h k = k
  serve-Serves expired e es (r, es') h k = k
  serve-Serves hit e es rest h k = h refl

  pub lookup_from-Serves :
      (es : List Entry) → All (From history) es → Serves history q now (lookup_from es q now).0
  unfolding lookup_from
  lookup_from-Serves [] h = unfold Serves in tt
  lookup_from-Serves (e ∷ es) h =
      serve-Serves (judge e q now) e es (lookup_from es q now) (hit-Serves e h.0)
        (lookup_from-Serves es h.1)

module _ (history : List Op) where
  pub cache_lookup-Holds :
      (c : Cache) (q : List ℕ) (now : ℕ) → Holds history c → Holds history (cache_lookup c q now).1
  unfolding cache_lookup
  cache_lookup-Holds c q now h = elim (Bool-cases (ltb (length q) 12)) [
    | inl t ↦ rw t h
    | inr f ↦ rw f (record {
      size = length-lookup_from c.entries q now ∙ h.size;
      next_in = h.next_in;
      from = lookup_from-From history c.entries q now h.from;
    })
  ]

  pub cache_store-Holds :
      (c : Cache) (q r : List ℕ) (now : ℕ)
      → Memᴰ (save q r now) history
      → Holds history c
      → Holds history (cache_store c q r now)
  unfolding cache_store
  cache_store-Holds c q r now m h = elim (Bool-cases (is_cacheable q r)) [
    | inl t ↦ rw t (record {
      size = length-set c.entries c.next (stored q r now) ∙ h.size;
      next_in = omega arith;
      from = set-From history c.entries c.next (stored q r now) h.from λ valid. (
        record { query = q; reply = r; time = now },
        m,
        (is_cacheable-IsPacket q r t).0,
        (is_cacheable-IsPacket q r t).1,
        refl,
      );
    })
    | inr f ↦ rw f h
  ]

  run_op-Holds :
      (op : Op) (c : Cache) → Memᴰ op history → Holds history c → Holds history (run_op c op)
  unfolding run_op
  run_op-Holds (ask q now) c m h = cache_lookup-Holds c q now h
  run_op-Holds (save q r now) c m h = cache_store-Holds c q r now m h

  run_ops-Holds :
      (ops : List Op) (c : Cache)
      → ((op : Op) → Memᴰ op ops → Memᴰ op history)
      → Holds history c
      → Holds history (run_ops c ops)
  unfolding run_ops
  run_ops-Holds [] c m h = h
  run_ops-Holds (op ∷ ops) c m h =
      run_ops-Holds ops (run_op c op) (λ o k. m o (Memᴰ.tail k))
        (run_op-Holds op c (m op (Memᴰ.head refl)) h)

  unused : (n : ℕ) → All (From history) (replicate n no_entry)
  unused zero = tt
  unused (suc n) = (λ valid. cc, unused n)

  pub cache_clear-Holds : Holds history cache_clear
  unfolding cache_clear
  cache_clear-Holds = record { size = refl; next_in = omega arith; from = unused dns_cache_size }

-- What a lookup in such a cache serves.
pub cache_lookup_serves :
    (history : List Op) (c : Cache) (q : List ℕ) (now : ℕ) {r : List ℕ}
    → Holds history c
    → IsPacket q
    → (cache_lookup c q now).0 ≡ some r
    → (a : Answer) × Fits history q now a × (r ≡ with_txid q a.reply)
unfolding cache_lookup
cache_lookup_serves history c q now holds k h =
    let short : ltb (length q) 12 ≡ false = ground arith in
    let served = rw short at h in
    unfold Serves in
    subst (Serves history q now) served (lookup_from-Serves history q now k c.entries holds.from)

-- Every reply that a lookup serves was stored for the same question at most 60 seconds before, by the
-- uint32 clock, and carries the transaction id of the query; so it is for every history of calls
-- from an empty cache, and for a query that is a DNS packet.
pub cache_serves_history :
    (ops : List Op) (q : List ℕ) (now : ℕ) {r : List ℕ}
    → IsPacket q
    → (cache_lookup (run_ops cache_clear ops) q now).0 ≡ some r
    → (a : Answer) × Fits ops q now a × (r ≡ with_txid q a.reply)
cache_serves_history ops q now k h =
    cache_lookup_serves ops (run_ops cache_clear ops) q now
      (run_ops-Holds ops ops cache_clear (λ o m. m) (cache_clear-Holds ops)) k h
