-- ===== src/Dns/Cache/Retention.antt =====
-- What a store to the cache of main/dns_fwd.c promises to later lookups.
use vetera_bridge.Prelude.{
  ℕ, zero, suc, ◌-◌, ◌≤◌, ◌<◌, ◌≡◌, refl, ap, ◌∙◌, ◌≢◌, false, Option, none, some, List, [], ◌∷◌,
  arith, ltb, length, get_or, set, take, drop, All, take_of_le, bytes_eq, u16, sub32,
}
use vetera_bridge.Dns.Cache.{
  Entry, Cache, Verdict, skip, expired, hit, question, judge, with_txid, serve, lookup_from,
  cache_lookup, zero_txid, stored, is_cacheable, cache_store,
}
use vetera_bridge.Dns.Cache.Entries.{
  IsPacket, length-zero_txid, with_txid-zero_txid, query_hash_eq, judge_hit,
}

-- An entry that a lookup of `q` passes over, at any time.
abbrev Passed : List ℕ → Entry → Type 0
Passed q e = (now : ℕ) → judge e q now ≢ hit

-- A lookup passes over an entry that an earlier lookup of the same question skipped.
skip-Passed :
    (e : Entry) (q q' : List ℕ) (t : ℕ)
    → question q ≡ question q'
    → length q ≡ length q'
    → judge e q t ≡ skip
    → Passed q' e
unfolding judge
skip-Passed e q q' t same len h now h' =
    let hash = query_hash_eq q q' same in
    let bytes : bytes_eq (take (length q - 12) (question e.query)) (question q)
        ≡ bytes_eq (take (length q' - 12) (question e.query)) (question q') =
      rw (same, len) refl in
    ground (arith, h, h', hash, bytes, len)

invalid-Passed : (e : Entry) (q : List ℕ) → Passed q (record e { valid = false })
unfolding judge
invalid-Passed e q now h = ground arith

-- What a lookup that finds nothing leaves is passed over by every later lookup of the same question.
serve_miss :
    (v : Verdict) (e : Entry) (es : List Entry) (q q' : List ℕ)
    (rest : Option (List ℕ) × List Entry)
    → (serve v e es q rest).0 ≡ none
    → (v ≡ skip → Passed q' e)
    → (rest.0 ≡ none → All (Passed q') rest.1)
    → All (Passed q') (serve v e es q rest).1
unfolding serve
serve_miss skip e es q q' rest h p k = (p refl, k h)
serve_miss expired e es q q' rest h p k = (invalid-Passed e q', k h)
serve_miss hit e es q q' rest h p k = cc

lookup_from_miss :
    (es : List Entry) (q q' : List ℕ) (t : ℕ)
    → question q ≡ question q'
    → length q ≡ length q'
    → (lookup_from es q t).0 ≡ none
    → All (Passed q') (lookup_from es q t).1
unfolding lookup_from
lookup_from_miss [] q q' t same len h = tt
lookup_from_miss (e ∷ es) q q' t same len h =
    serve_miss (judge e q t) e es q q' (lookup_from es q t) h (λ s. skip-Passed e q q' t same len s)
      (λ m. lookup_from_miss es q q' t same len m)

serve_passed :
    (v : Verdict) (e : Entry) (es : List Entry) (q : List ℕ) (rest : Option (List ℕ) × List Entry)
    → v ≢ hit
    → (serve v e es q rest).0 ≡ rest.0
unfolding serve
serve_passed skip e es q rest n = refl
serve_passed expired e es q rest n = refl
serve_passed hit e es q rest n = absurd (n refl)

serve_hit :
    (v : Verdict) (e : Entry) (es : List Entry) (q : List ℕ) (rest : Option (List ℕ) × List Entry)
    → v ≡ hit
    → (serve v e es q rest).0 ≡ some (with_txid q (take e.rlen e.reply))
unfolding serve
serve_hit skip e es q rest h = cc
serve_hit expired e es q rest h = cc
serve_hit hit e es q rest h = refl

lookup_from-set :
    (es : List Entry) (i : ℕ) (e : Entry) (q : List ℕ) (now : ℕ)
    → i < length es
    → All (Passed q) es
    → judge e q now ≡ hit
    → (lookup_from (set es i e) q now).0 ≡ some (with_txid q (take e.rlen e.reply))
unfolding lookup_from
lookup_from-set [] i e q now h p v = absurd (omega arith)
lookup_from-set (x ∷ es) zero e q now h p v =
    serve_hit (judge e q now) e es q (lookup_from es q now) v
lookup_from-set (x ∷ es) (suc i) e q now h p v =
    serve_passed (judge x q now) x (set es i e) q (lookup_from (set es i e) q now) (p.0 now)
    ∙ lookup_from-set es i e q now (omega arith) p.1 v

length-serve :
    (v : Verdict) (e : Entry) (es : List Entry) (q : List ℕ) (rest : Option (List ℕ) × List Entry)
    → length rest.1 ≡ length es
    → length (serve v e es q rest).1 ≡ suc (length es)
unfolding serve
length-serve skip e es q rest h = ap suc h
length-serve expired e es q rest h = ap suc h
length-serve hit e es q rest h = refl

length-lookup_from :
    (es : List Entry) (q : List ℕ) (t : ℕ) → length (lookup_from es q t).1 ≡ length es
unfolding lookup_from
length-lookup_from [] q t = refl
length-lookup_from (e ∷ es) q t =
    length-serve (judge e q t) e es q (lookup_from es q t) (length-lookup_from es q t)

with_txid_own :
    (q r : List ℕ) → 2 ≤ length r → with_txid q r ≡ get_or q 0 0 ∷ get_or q 1 0 ∷ drop 2 r
with_txid_own q [] h = absurd (omega arith)
with_txid_own q (x ∷ []) h = absurd (omega arith)
with_txid_own q (x ∷ y ∷ r) h = refl

-- What is served of a stored reply: the reply, with the id of the query.
served_reply :
    (q r q' : List ℕ) (t : ℕ)
    → IsPacket r
    → with_txid q' (take (stored q r t).rlen (stored q r t).reply)
      ≡ get_or q' 0 0 ∷ get_or q' 1 0 ∷ drop 2 r
unfolding stored
served_reply q r q' t k =
    ap (with_txid q')
      (take_of_le (u16 (length r)) (zero_txid r) (omega (arith, length-zero_txid r, k.0, k.1)))
    ∙ with_txid-zero_txid q' r
    ∙ with_txid_own q' r (omega (arith, k.0))

-- A store into a cache all of whose entries a lookup of the question passes over.
stored_answers :
    (c : Cache) (q r q' : List ℕ) (t now : ℕ)
    → c.next < length c.entries
    → All (Passed q') c.entries
    → IsPacket q
    → IsPacket r
    → question q ≡ question q'
    → length q ≡ length q'
    → sub32 now t ≤ 60000
    → (cache_lookup (cache_store c q r t) q' now).0
      ≡ some (get_or q' 0 0 ∷ get_or q' 1 0 ∷ drop 2 r)
unfolding cache_lookup cache_store is_cacheable
stored_answers c q r q' t now room passed kq kr same len young =
    let fits : (length q ≤ 512)
        × (12 ≤ length q)
        × (length r ≤ 512)
        × (12 ≤ length r)
        × (12 ≤ length q') =
      omega arith in
    let found =
      lookup_from-set c.entries c.next (stored q r t) q' now room passed
        (judge_hit q r q' t now same len young)
      ∙ ap some (served_reply q r q' t kr) in
    ground (arith, found)

missed :
    (c : Cache) (q q' : List ℕ) (asked : ℕ)
    → c.next < length c.entries
    → 12 ≤ length q
    → question q ≡ question q'
    → length q ≡ length q'
    → (cache_lookup c q asked).0 ≡ none
    → let c' = (cache_lookup c q asked).1 in
      (c'.next < length c'.entries) × All (Passed q') c'.entries
unfolding cache_lookup
missed c q q' asked room long same len miss =
    let big : ltb (length q) 12 ≡ false = ground arith in
    rw big (
      omega (arith, length-lookup_from c.entries q asked),
      lookup_from_miss c.entries q q' asked same len (rw big at miss),
    )

-- A lookup finds nothing, and the reply to the query is stored. Then for 60 seconds a lookup of the same
-- question, in a query of the same length, gets that reply with its own id, whatever other entries, live or
-- expired, the cache holds, if its position lies in the array, and query and reply are DNS packets.
pub lookup-cache_store :
    (c : Cache) (q r q' : List ℕ) (asked t now : ℕ)
    → c.next < length c.entries
    → IsPacket q
    → IsPacket r
    → question q ≡ question q'
    → length q ≡ length q'
    → (cache_lookup c q asked).0 ≡ none
    → sub32 now t ≤ 60000
    → (cache_lookup (cache_store (cache_lookup c q asked).1 q r t) q' now).0
      ≡ some (get_or q' 0 0 ∷ get_or q' 1 0 ∷ drop 2 r)
lookup-cache_store c q r q' asked t now room kq kr same len miss young =
    let (fits, passed) = missed c q q' asked room kq.0 same len miss in
    stored_answers (cache_lookup c q asked).1 q r q' t now fits passed kq kr same len young
