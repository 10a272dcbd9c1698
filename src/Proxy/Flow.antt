-- ===== src/Proxy/Flow.antt =====
-- The flow table of main/http_proxy.c. A pointer to a flow is its index; ports are in host order.
pub mod Table
pub mod Slot
use vetera_bridge.Prelude.{
  ℕ, suc, Bool, true, false, not, ◌&&◌, Option, none, some, List, [], ◌∷◌, ltb, ◌==◌, if◌then◌else◌,
  set, replicate, sub32,
}

abbrev pub relay_http_port : ℕ
relay_http_port = 3080

abbrev pub relay_tls_port : ℕ
relay_tls_port = 3443

abbrev pub flow_max : ℕ
flow_max = 16

abbrev pub idle_ms : ℕ
idle_ms = 120000

pub data FlowState : Type 0 where
  free active closed : FlowState

pub record Flow : Type 0 where
  pub state : FlowState
  pub phone_port : ℕ
  pub relay_port : ℕ
  pub orig_port : ℕ
  pub orig_ip : ℕ
  pub stamp_ms : ℕ  -- uint32

abbrev pub is_free : FlowState → Bool
is_free free = true
is_free _ = false

abbrev pub is_active : FlowState → Bool
is_active active = true
is_active _ = false

abbrev pub is_closed : FlowState → Bool
is_closed closed = true
is_closed _ = false

-- `flow_find`: the first flow of a phone port, with its index.
unfoldable pub flow_find_from : ℕ → List Flow → ℕ → Option (ℕ × Flow)
flow_find_from i [] port = none
flow_find_from i (f ∷ fs) port =
    if not (is_free f.state) && f.phone_port == port
    then some (i, f)
    else flow_find_from (suc i) fs port

unfoldable pub flow_find : List Flow → ℕ → Option (ℕ × Flow)
unfolding flow_find_from
flow_find fs port = flow_find_from 0 fs port

-- A candidate of `flow_slot`: its index and its age, which is `now - stamp_ms`.
abbrev pub Candidate : Type 0
Candidate = Option (ℕ × ℕ)

abbrev pub older : ℕ → ℕ → Candidate → Candidate
older i age none = some (i, age)
older i age (some (j, best)) = if ltb best age then some (i, age) else some (j, best)

-- `closed ? closed : idle`
abbrev pub choose : Candidate → Candidate → Option ℕ
choose (some (i, _)) idle = some i
choose none (some (i, _)) = some i
choose none none = none

-- The loop of `flow_slot`.
unfoldable pub flow_slot_from : ℕ → List Flow → ℕ → Candidate → Candidate → Option ℕ
flow_slot_from i [] now oldest idle = choose oldest idle
flow_slot_from i (f ∷ fs) now oldest idle =
    let age = sub32 now f.stamp_ms in
    let oldest' = if is_closed f.state then older i age oldest else oldest in
    let idle' = if not (is_closed f.state) && ltb idle_ms age then older i age idle else idle in
    let rest = flow_slot_from (suc i) fs now oldest' idle' in
    if is_free f.state then some i else rest

unfoldable pub flow_slot : List Flow → ℕ → Option ℕ
unfolding flow_slot_from
flow_slot fs now = flow_slot_from 0 fs now none none

-- `flow_lookup`: the original address and port of a live flow.
unfoldable pub flow_lookup : List Flow → ℕ → ℕ → Option (ℕ × ℕ)
flow_lookup fs phone_port relay_port = elim (flow_find fs phone_port) [
  | none ↦ none
  | some (i, f) ↦
      if is_active f.state && f.relay_port == relay_port
      then some (f.orig_ip, f.orig_port)
      else none
]

-- `flow_mark_closed`
unfoldable pub flow_mark_closed : List Flow → ℕ → ℕ → List Flow
flow_mark_closed fs phone_port now = elim (flow_find fs phone_port) [
  | none ↦ fs
  | some (i, f) ↦ set fs i (record f { state = closed; stamp_ms = now })
]

abbrev pub no_flow : Flow
no_flow = record {
  state = free;
  phone_port = 0;
  relay_port = 0;
  orig_port = 0;
  orig_ip = 0;
  stamp_ms = 0;
}

-- The table after the `memset` of `proxy_attach_netif`.
unfoldable pub no_flows : List Flow
no_flows = replicate flow_max no_flow
