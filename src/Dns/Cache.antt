-- ===== src/Dns/Cache.antt =====
-- The reply cache of main/dns_fwd.c. A packet is the list of its bytes, so `qlen` is its length. An
-- entry's buffers are the bytes that were copied in; those past `qlen` and `rlen` are never read.
pub mod Entries
pub mod History
pub mod Retention
use vetera_bridge.Prelude.{
  ℕ, ◌+◌, ◌-◌, ◌*◌, ◌/◌, ◌%◌, Bool, true, false, not, ◌&&◌, ◌||◌, Option, none, some, List, [], ◌∷◌,
  ltb, ◌==◌, if◌then◌else◌, length, take, drop, get_or, set, replicate, bytes_eq, u16, u32, sub32,
  bit_xor,
}

abbrev pub dns_cache_size : ℕ
dns_cache_size = 16

abbrev pub dns_max_packet : ℕ
dns_max_packet = 512

-- An entry older than this is not served.
abbrev pub cache_ttl_ms : ℕ
cache_ttl_ms = 60000

pub record Entry : Type 0 where
  pub valid : Bool
  pub hash : ℕ  -- uint16
  pub qlen : ℕ  -- uint16
  pub rlen : ℕ  -- uint16
  pub saved_ms : ℕ  -- uint32
  pub query : List ℕ
  pub reply : List ℕ

-- `dns_cache` and `dns_cache_next`
pub record Cache : Type 0 where
  pub entries : List Entry
  pub next : ℕ  -- uint8

-- The loop of `dns_query_hash`: `h = h * 31 + q[i]` on uint32.
unfoldable pub hash_from : ℕ → List ℕ → ℕ
hash_from h [] = h
hash_from h (b ∷ bs) = hash_from (u32 (h * 31 + b)) bs

-- Bytes 12 to 39 are hashed, as far as the query has them.
unfoldable pub query_hash : List ℕ → ℕ
unfolding hash_from
query_hash q = let h = hash_from 0 (take 28 (drop 12 q)) in u16 (bit_xor h (h / 65536))

-- What `dns_cache_lookup` does with one entry.
pub data Verdict : Type 0 where
  skip expired hit : Verdict

-- The question, which is all that follows the header.
abbrev pub question : List ℕ → List ℕ
question q = drop 12 q

unfoldable pub judge : Entry → List ℕ → ℕ → Verdict
judge e q now =
    if not e.valid || not (e.hash == query_hash q) || not (e.qlen == u16 (length q))
    then skip
    else if ltb cache_ttl_ms (sub32 now e.saved_ms)
    then expired
    else if ltb 12 (length q)
        && not (bytes_eq (take (length q - 12) (question e.query)) (question q))
    then skip
    else hit

-- `reply[0] = query[0]; reply[1] = query[1]`
abbrev pub with_txid : List ℕ → List ℕ → List ℕ
with_txid q r = set (set r 0 (get_or q 0 0)) 1 (get_or q 1 0)

-- One round of the loop over the entries, given what the later rounds do: the first hit is served,
-- and an expired entry on the way is invalidated.
unfoldable pub serve :
    Verdict
    → Entry
    → List Entry
    → List ℕ
    → Option (List ℕ) × List Entry
    → Option (List ℕ) × List Entry
serve skip e es q (r, es') = (r, e ∷ es')
serve expired e es q (r, es') = (r, record e { valid = false } ∷ es')
serve hit e es q rest = (some (with_txid q (take e.rlen e.reply)), e ∷ es)

unfoldable pub lookup_from : List Entry → List ℕ → ℕ → Option (List ℕ) × List Entry
lookup_from [] q now = (none, [])
lookup_from (e ∷ es) q now = serve (judge e q now) e es q (lookup_from es q now)

-- `dns_cache_lookup`, with `*rlen` the length of the reply.
unfoldable pub cache_lookup : Cache → List ℕ → ℕ → Option (List ℕ) × Cache
cache_lookup c q now =
    let (r, es) = lookup_from c.entries q now in
    if ltb (length q) 12 then (none, c) else (r, record c { entries = es })

-- `e->query[0] = e->query[1] = 0`
abbrev pub zero_txid : List ℕ → List ℕ
zero_txid p = set (set p 0 0) 1 0

unfoldable pub stored : List ℕ → List ℕ → ℕ → Entry
stored q r now = record {
  valid = true;
  hash = query_hash q;
  qlen = u16 (length q);
  rlen = u16 (length r);
  saved_ms = now;
  query = zero_txid q;
  reply = zero_txid r;
}

-- The guard of `dns_cache_store`.
unfoldable pub is_cacheable : List ℕ → List ℕ → Bool
is_cacheable q r = not (
    ltb (length q) 12
    || ltb dns_max_packet (length q)
    || ltb (length r) 12
    || ltb dns_max_packet (length r))

-- `dns_cache_store`: a round robin over the slots.
unfoldable pub cache_store : Cache → List ℕ → List ℕ → ℕ → Cache
cache_store c q r now =
    if is_cacheable q r
    then record {
      entries = set c.entries c.next (stored q r now);
      next = (c.next + 1) % dns_cache_size;
    }
    else c

abbrev pub no_entry : Entry
no_entry = record {
  valid = false;
  hash = 0;
  qlen = 0;
  rlen = 0;
  saved_ms = 0;
  query = [];
  reply = [];
}

-- The cache at start, and after the watchdog's `memset`.
unfoldable pub cache_clear : Cache
cache_clear = record { entries = replicate dns_cache_size no_entry; next = 0 }
