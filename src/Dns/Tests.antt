-- ===== src/Dns/Tests.antt =====
-- The theorems on main/dns_fwd.c at concrete packets and clocks.
use vetera_bridge.Prelude.{
  ℕ, ◌+◌, ◌≡◌, refl, ◌≢◌, ◌↔◌, true, false, none, some, List, [], ◌∷◌, ◌++◌, arith, get_or, drop,
  All, bytes_eq,
}
use vetera_bridge.Dns.Cache.{
  hash_from, query_hash, question, judge, with_txid, serve, lookup_from, cache_lookup, stored,
  is_cacheable, cache_store, cache_clear,
}
use vetera_bridge.Dns.Cache.History.{Op, save, run_op, run_ops, Answer, Fits, cache_serves_history}
use vetera_bridge.Dns.Cache.Retention.{lookup-cache_store}
use vetera_bridge.Dns.Reply.{header, gateway_record, make_captive_reply}
use vetera_bridge.Dns.Reply.Names.{IsLabel, encode_name}
use vetera_bridge.Dns.Reply.Captive.{IsQuery, captive_reply_lem}
use vetera_bridge.Dns.Desc.{query_desc}
use vetera_bridge.Dns.Desc.Terminator.{query_desc_unterminated}
use vetera_bridge.Dns.Forward.{
  Endpoint, packet, again, Round, get_upstream, drain, wait_one, wait_reply, forward,
}
use vetera_bridge.Dns.Forward.Accepts.{FirstReply, forward_iff}
use vetera_bridge.Dns.Server.{Input, cached, Output, answer_miss, answer, serve_pass, serve_all}
use vetera_bridge.Dns.Server.Sources.{upstream_answers, Sourced, replies-Sourced}
use vetera_bridge.Dns.Watchdog.{Event, beat, pass}

-- A query for the A record of `ab.c`, with the id 1 2.
abbrev head12 : List ℕ
head12 = 1 ∷ 2 ∷ 1 ∷ 0 ∷ 0 ∷ 1 ∷ 0 ∷ 0 ∷ 0 ∷ 0 ∷ 0 ∷ 0 ∷ []

abbrev labels_ab_c : List (List ℕ)
labels_ab_c = (97 ∷ 98 ∷ []) ∷ (99 ∷ []) ∷ []

abbrev type_a : List ℕ
type_a = 0 ∷ 1 ∷ 0 ∷ 1 ∷ []

abbrev ask_ab_c : List ℕ
ask_ab_c = head12 ++ (encode_name labels_ab_c ++ type_a)

-- The same question under another id.
abbrev ask_again : List ℕ
ask_again = 3 ∷ 4 ∷ drop 2 ask_ab_c

abbrev reply_ab_c : List ℕ
reply_ab_c = ask_ab_c ++ (0xc0 ∷ 0x0c ∷ 0 ∷ 1 ∷ [])

labels_ab_c-IsLabel : All IsLabel labels_ab_c
labels_ab_c-IsLabel = ((omega arith, omega arith), ((omega arith, omega arith), tt))

abbrev kept : List Op
kept = save ask_ab_c reply_ab_c 1000 ∷ []

served_again :
    (cache_lookup (run_ops cache_clear kept) ask_again 2000).0
    ≡ some (with_txid ask_again reply_ab_c)
unfolding run_ops run_op cache_lookup lookup_from serve judge cache_store is_cacheable stored
    cache_clear query_hash hash_from bytes_eq
served_again = refl

cache_serves_history_example :
    (a : Answer) × Fits kept ask_again 2000 a
    × (with_txid ask_again reply_ab_c ≡ with_txid ask_again a.reply)
cache_serves_history_example =
    cache_serves_history kept ask_again 2000 (omega arith, omega arith) served_again

lookup-cache_store_example :
    (cache_lookup
      (cache_store (cache_lookup cache_clear ask_ab_c 4294966000).1 ask_ab_c reply_ab_c 4294967000)
      ask_again
      500).0
    ≡ some (get_or ask_again 0 0 ∷ get_or ask_again 1 0 ∷ drop 2 reply_ab_c)
unfolding cache_clear
lookup-cache_store_example =
    lookup-cache_store cache_clear ask_ab_c reply_ab_c ask_again 4294966000 4294967000 500
      (omega arith) (omega arith, omega arith) (omega arith, omega arith) refl refl
      (unfold cache_lookup lookup_from judge serve in refl) (omega arith)

ask_ab_c-IsQuery : IsQuery ask_ab_c 1
ask_ab_c-IsQuery = record {
  before = head12;
  labels = labels_ab_c;
  type_hi = 0;
  type_lo = 1;
  class_hi = 0;
  class_lo = 1;
  rest = [];
  header_size = refl;
  labels_ok = labels_ab_c-IsLabel;
  bytes = refl;
  type_is = refl;
}

captive_reply_lem_example :
    make_captive_reply ask_ab_c 512 ≡ header ask_ab_c 0 1 ++ (question ask_ab_c ++ gateway_record)
captive_reply_lem_example =
    captive_reply_lem ask_ab_c 512 ask_ab_c-IsQuery (omega arith) (omega arith)

query_desc_unterminated_example :
    All
      (λ b. b ≢ 0)
      (query_desc (head12 ++ (2 ∷ 97 ∷ 98 ∷ 0xc0 ∷ 12 ∷ [])) (7 ∷ 7 ∷ 7 ∷ []) 128).name
query_desc_unterminated_example =
    query_desc_unterminated head12 97 (98 ∷ []) 0xc0 (12 ∷ []) 7 (7 ∷ 7 ∷ []) 128 refl
      (omega arith, omega arith) refl (omega arith) (omega arith, (omega arith, tt))

abbrev resolver : Endpoint
resolver = record { ip = 134744072; port = 53 }

-- A leftover before the query is drained, a stranger's datagram is passed over.
abbrev rounds_seen : List Round
rounds_seen =
    record { clock = 5; got = packet ask_ab_c resolver }
    ∷ record { clock = 6; got = again }
    ∷ record { clock = 7; got = packet reply_ab_c (record { ip = 1; port = 53 }) }
    ∷ record { clock = 8; got = packet reply_ab_c resolver }
    ∷ []

forward_iff_example :
    (forward ask_ab_c resolver true 5 rounds_seen ≡ some reply_ab_c)
    ↔ ((true ≡ true) × FirstReply (5 + 2000000) ask_ab_c resolver (drain rounds_seen) reply_ab_c)
forward_iff_example = forward_iff ask_ab_c resolver true 5 rounds_seen reply_ab_c

-- The first query goes upstream, the second one of the same question is answered from the cache.
abbrev first_input : Input
first_input = record {
  query = ask_ab_c;
  now = 900;
  wifi_up = true;
  station_dns = none;
  sent = true;
  start = 5;
  rounds = rounds_seen;
  stored_at = 1000;
}

abbrev second_input : Input
second_input = record first_input { query = ask_again; now = 2000; wifi_up = false; rounds = [] }

abbrev second_output : Output
second_output = record { source = cached; reply = with_txid ask_again reply_ab_c }

second_pass :
    (serve_pass (serve_all cache_clear (first_input ∷ [])) second_input).0 ≡ some second_output
unfolding serve_all serve_pass answer answer_miss forward get_upstream drain wait_reply wait_one
    cache_lookup lookup_from serve judge cache_store is_cacheable stored cache_clear query_hash
    hash_from bytes_eq
second_pass = refl

replies-Sourced_example :
    Sourced (upstream_answers cache_clear (first_input ∷ [])) second_input second_output
replies-Sourced_example = replies-Sourced (first_input ∷ []) second_input (omega arith) second_pass

-- The second heartbeat that finds the task hung restarts it.
abbrev two_beats : List Event
two_beats = pass 1000 ∷ beat 20000 20100 ∷ []
