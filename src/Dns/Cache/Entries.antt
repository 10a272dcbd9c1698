-- ===== src/Dns/Cache/Entries.antt =====
-- What one cache entry of main/dns_fwd.c answers, and the slots that a store leaves alone.
use vetera_bridge.Prelude.{
  ℕ, ◌-◌, ◌≤◌, ◌≡◌, refl, true, List, [], ◌∷◌, arith, length, get_or, set, take, length-set,
  length-drop, take_of_le, bytes_eq→eq, bytes_eq_refl, sub32,
}
use vetera_bridge.Dns.Cache.{
  Entry, query_hash, hit, question, judge, with_txid, zero_txid, stored, is_cacheable,
}

abbrev pub IsPacket : List ℕ → Type 0
IsPacket p = (12 ≤ length p) × (length p ≤ 512)

pub question-zero_txid : (p : List ℕ) → question (zero_txid p) ≡ question p
question-zero_txid [] = refl
question-zero_txid (x ∷ []) = refl
question-zero_txid (x ∷ y ∷ p) = refl

pub length-zero_txid : (p : List ℕ) → length (zero_txid p) ≡ length p
length-zero_txid p = omega (arith, length-set {0} p 0 0, length-set {0} (set p 0 0) 1 0)

pub with_txid-zero_txid : (q r : List ℕ) → with_txid q (zero_txid r) ≡ with_txid q r
with_txid-zero_txid q [] = refl
with_txid-zero_txid q (x ∷ []) = refl
with_txid-zero_txid q (x ∷ y ∷ r) = refl

pub length-with_txid : (q r : List ℕ) → length (with_txid q r) ≡ length r
length-with_txid q r = omega (
  arith,
  length-set {0} r 0 (get_or q 0 0),
  length-set {0} (set r 0 (get_or q 0 0)) 1 (get_or q 1 0),
)

-- The hash reads nothing before the question.
pub query_hash_eq : (p q : List ℕ) → question p ≡ question q → query_hash p ≡ query_hash q
unfolding query_hash
query_hash_eq p q e = rw e

pub take-question-zero_txid :
    (q : List ℕ) (n : ℕ) → length q ≡ n → take (n - 12) (question (zero_txid q)) ≡ question q
take-question-zero_txid q n e =
    rw (question-zero_txid q)
      (take_of_le (n - 12) (question q) (omega (arith, length-drop {0} 12 q)))

-- An entry made by a store of `q0` answers a query of the same question, if it is young enough.
pub judge_hit :
    (q0 r0 q : List ℕ) (t now : ℕ)
    → question q0 ≡ question q
    → length q0 ≡ length q
    → sub32 now t ≤ 60000
    → judge (stored q0 r0 t) q now ≡ hit
unfolding judge stored
judge_hit q0 r0 q t now same len young = ground (
  arith,
  query_hash_eq (zero_txid q0) q,
  query_hash_eq q0 q same,
  question-zero_txid q0,
  take-question-zero_txid q0 (length q),
  bytes_eq_refl (question q),
)

-- The other direction: what a hit of such an entry says.
pub judge_hit_inv :
    (q0 r0 q : List ℕ) (t now : ℕ)
    → 12 ≤ length q0
    → length q0 ≤ 512
    → 12 ≤ length q
    → length q ≤ 512
    → judge (stored q0 r0 t) q now ≡ hit
    → (question q0 ≡ question q) × (length q0 ≡ length q) × (sub32 now t ≤ 60000)
unfolding judge stored
judge_hit_inv q0 r0 q t now lo hi lo' hi' h =
    ground (arith, take-question-zero_txid q0 (length q), bytes_eq→eq (question q0) (question q))

pub judge_valid : (e : Entry) (q : List ℕ) (now : ℕ) → judge e q now ≡ hit → e.valid ≡ true
unfolding judge
judge_valid e q now h = ground arith

pub is_cacheable-IsPacket : (q r : List ℕ) → is_cacheable q r ≡ true → IsPacket q × IsPacket r
unfolding is_cacheable
is_cacheable-IsPacket q r h = ground arith
