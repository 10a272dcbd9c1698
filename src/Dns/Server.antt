-- ===== src/Dns/Server.antt =====
-- One pass of the loop of `dns_server_task` in main/dns_fwd.c. The pass takes what its environment
-- gave it: the query, the clock, the WiFi flag, and what the upstream socket did.
pub mod Sources
use vetera_bridge.Prelude.{ℕ, Bool, Option, none, some, List, [], ◌∷◌, ltb, if◌then◌else◌, length}
use vetera_bridge.Dns.Cache.{dns_max_packet, Cache, cache_lookup, cache_store}
use vetera_bridge.Dns.Reply.{make_captive_reply, make_servfail_reply}
use vetera_bridge.Dns.Forward.{Round, get_upstream, forward}

pub record Input : Type 0 where
  pub query : List ℕ  -- as received, cut to 512 bytes
  pub now : ℕ  -- uint32 milliseconds, read by the lookup
  pub wifi_up : Bool
  pub station_dns : Option ℕ
  pub sent : Bool
  pub start : ℕ
  pub rounds : List Round
  pub stored_at : ℕ  -- uint32 milliseconds, read by the store

-- Where a reply came from, as the verbose log names it.
pub data Source : Type 0 where
  cached upstream upstream_failed captive : Source

pub record Output : Type 0 where
  pub source : Source
  pub reply : List ℕ  -- sent if not empty

abbrev pub upstream_reply : Input → Option (List ℕ)
upstream_reply i = forward i.query (get_upstream i.station_dns) i.sent i.start i.rounds

-- What the bridge answers by itself.
unfoldable pub local_reply : Input → Output
local_reply i =
    if i.wifi_up
    then record { source = upstream_failed; reply = make_servfail_reply i.query dns_max_packet }
    else record { source = captive; reply = make_captive_reply i.query dns_max_packet }

-- A query that the cache does not answer, with the cache as the lookup left it. Nothing is
-- forwarded while WiFi is down.
unfoldable pub answer_miss : Cache → Input → Option (List ℕ) → Option Output × Cache
answer_miss c i (some r) =
    (some (record { source = upstream; reply = r }), cache_store c i.query r i.stored_at)
answer_miss c i none = (some (local_reply i), c)

unfoldable pub answer : Input → Option (List ℕ) × Cache → Option Output × Cache
answer i (some r, c) = (some (record { source = cached; reply = r }), c)
answer i (none, c) = answer_miss c i (if i.wifi_up then upstream_reply i else none)

-- A short query is passed over.
unfoldable pub serve_pass : Cache → Input → Option Output × Cache
serve_pass c i =
    if ltb (length i.query) 12 then (none, c) else answer i (cache_lookup c i.query i.now)

-- The loop, until it is told to restart.
unfoldable pub serve_all : Cache → List Input → Cache
serve_all c [] = c
serve_all c (i ∷ is) = serve_all (serve_pass c i).1 is
