-- ===== src/Dns/Forward.antt =====
-- `dns_forward` and `dns_get_upstream` of main/dns_fwd.c. What the sockets and the clock do is a
-- list of events: the outcome of each `recvfrom`, with the clock that the code reads before it.
pub mod Accepts
use vetera_bridge.Prelude.{
  ℕ, ◌+◌, ◌*◌, Bool, ◌&&◌, Option, none, some, List, [], ◌∷◌, ltb, leb, ◌==◌, if◌then◌else◌, length,
  take,
}
use vetera_bridge.Dns.Cache.{dns_max_packet}
use vetera_bridge.Dns.Reply.{byte_at}

-- An address and a port.
pub record Endpoint : Type 0 where
  pub ip : ℕ
  pub port : ℕ

-- `recvfrom`: a datagram with its sender, EAGAIN or EWOULDBLOCK, or another error.
pub data Recv : Type 0 where
  packet : List ℕ → Endpoint → Recv
  again : Recv
  failed : Recv

pub record Round : Type 0 where
  pub clock : ℕ  -- microseconds since boot
  pub got : Recv

-- DNS_TIMEOUT_MS in microseconds
abbrev pub dns_timeout_us : ℕ
dns_timeout_us = 2000000

-- 8.8.8.8, in the order of the model's addresses
abbrev pub fallback_dns : ℕ
fallback_dns = 8 * 16777216 + 8 * 65536 + 8 * 256 + 8

-- `dns_get_upstream`; the argument is the station's DNS server where there is a station interface
-- that knows one.
unfoldable pub get_upstream : Option ℕ → Endpoint
get_upstream none = record { ip = fallback_dns; port = 53 }
get_upstream (some ip) =
    if ip == 0 then record { ip = fallback_dns; port = 53 } else record { ip = ip; port = 53 }

-- Whatever is queued is dropped, up to the first `recvfrom` that has nothing.
unfoldable pub drain : List Round → List Round
drain [] = []
drain (r ∷ rs) = drain_one r.got rs (drain rs)
  where
    drain_one : Recv → List Round → List Round → List Round
    drain_one (packet p from) rs rest = rest
    drain_one again rs rest = rs
    drain_one failed rs rest = rs

-- A reply from the upstream server with the id of the query.
abbrev pub is_reply : List ℕ → Endpoint → List ℕ → Endpoint → Bool
is_reply q up p from =
    leb 12 (length p)
    && byte_at p 0 == byte_at q 0
    && byte_at p 1 == byte_at q 1
    && from.ip == up.ip
    && from.port == up.port

-- What one round of the wait does with what was received, given what the later rounds do.
unfoldable pub wait_one : List ℕ → Endpoint → Recv → Option (List ℕ) → Option (List ℕ)
wait_one q up (packet p from) rest =
    if is_reply q up (take dns_max_packet p) from then some (take dns_max_packet p) else rest
wait_one q up again rest = rest
wait_one q up failed rest = none

-- The wait for the reply. A list that ends stands for a clock that has passed the deadline.
unfoldable pub wait_reply : ℕ → List ℕ → Endpoint → List Round → Option (List ℕ)
wait_reply deadline q up [] = none
wait_reply deadline q up (r ∷ rs) =
    let rest = wait_reply deadline q up rs in
    if ltb r.clock deadline then wait_one q up r.got rest else none

-- `dns_forward`; `sent` says whether `sendto` succeeded, `start` is the clock after it.
unfoldable pub forward : List ℕ → Endpoint → Bool → ℕ → List Round → Option (List ℕ)
forward q up sent start rounds =
    if sent then wait_reply (start + dns_timeout_us) q up (drain rounds) else none
