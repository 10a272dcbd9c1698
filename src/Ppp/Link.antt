-- ===== src/Ppp/Link.antt =====
-- The state of main/ppp_link.c and its handlers. A handler returns the new state and the calls that
-- it makes of BTstack, lwIP and the other modules, in order. What those calls return to the code
-- comes with the event.
pub mod Handlers
pub mod Accept
pub mod Session
pub mod Transmit
use vetera_bridge.Prelude.{
  ℕ, ◌-◌, Bool, true, false, not, ◌||◌, Option, none, some, List, [], ◌∷◌, ◌++◌, ltb, ◌==◌,
  if◌then◌else◌, take,
}
use vetera_bridge.Ppp.Names.{is_nosec_name}
use vetera_bridge.Ppp.Security.{SecMode}
use vetera_bridge.Ppp.Handshake.{Script}

abbrev pub ppp_tx_buf_size : ℕ
ppp_tx_buf_size = 8192

abbrev pub ppp_tx_chunk_max : ℕ
ppp_tx_chunk_max = 1024

abbrev pub bt_name_max : ℕ
bt_name_max = 32

pub record Link : Type 0 where
  pub mode : SecMode  -- `link_mode`
  pub active_cid : ℕ  -- 0 for none
  pub session : Bool  -- `session_active`
  pub ppp_up : Bool  -- `ppp_up_flag`
  pub ppp : Bool  -- the pcb is there
  pub teardown : Bool  -- `ppp_teardown`
  pub tx : List ℕ  -- the bytes in `ppp_tx_stream`
  pub notify_pending : Bool  -- `tx_notify_pending`
  pub dropped : ℕ  -- `tx_dropped`, uint32
  pub script : Script
  pub auto_cid : ℕ  -- 0 for none
  pub auto_handle : ℕ
  pub auto_addr : ℕ
  pub sec_pending : Bool  -- `auto_sec_pending`
  pub last_name : List ℕ
  pub last_secured : Bool
  pub last_valid : Bool

pub data Act : Type 0 where
  accept decline disconnect ask_send : ℕ → Act
  request_name request_level : ℕ → Act
  rfcomm_send : ℕ → List ℕ → Act
  to_ppp : List ℕ → Act
  attach_proxy free_pcb relisten notify update_nat : Act
  on_opened : ℕ → Act
  on_closed on_ppp_up on_ppp_down : Act

abbrev pub Result : Type 0
Result = Link × List Act

-- `f` after what was done before.
abbrev pub after : Result → (Link → Result) → Result
after (l, acts) f = let (l', more) = f l in (l', acts ++ more)

-- Both session variables at once, under the lock.
abbrev pub end_session : Link → Link
end_session l = record l { session = false; active_cid = 0 }

unfoldable pub auto_release : Link → Link
auto_release l = record l { auto_cid = 0; sec_pending = false }

unfoldable pub auto_fail : Link → Result
auto_fail l =
    let l' = record l { auto_cid = 0; sec_pending = false } in
    (if l.active_cid == l.auto_cid then end_session l' else l', decline l.auto_cid ∷ [])

-- `auto_decide`; a phone that did not tell its name has none.
unfoldable pub is_secured : Option (List ℕ) → Bool
is_secured none = true
is_secured (some name) = not (is_nosec_name name)

abbrev pub shown_name : Option (List ℕ) → List ℕ
shown_name none = []
shown_name (some name) = take (bt_name_max - 1) name

unfoldable pub auto_decide : Link → Option (List ℕ) → Result
auto_decide l name =
    let secure = is_secured name in
    let known = record l {
      last_name = shown_name name;
      last_secured = secure;
      last_valid = true;
    } in
    if secure
    then (record known { sec_pending = true }, request_level l.auto_handle ∷ [])
    else (record known { auto_cid = 0; sec_pending = false }, accept l.auto_cid ∷ [])

-- `auto_begin`; `asked` says whether `gap_remote_name_request` succeeded.
unfoldable pub auto_begin : Link → ℕ → ℕ → ℕ → Bool → Result
auto_begin l cid handle addr asked =
    let held = record l {
      auto_cid = cid;
      auto_handle = handle;
      auto_addr = addr;
      sec_pending = false;
    } in
    if asked
    then (held, request_name addr ∷ [])
    else after (held, request_name addr ∷ []) (λ h. auto_decide h none)

-- The remote name event of `auto_hci_handler`; the name is its bytes before the NUL.
unfoldable pub on_name : Link → ℕ → ℕ → List ℕ → Result
on_name l addr status name =
    let decided =
      auto_decide l (if status == 0 then some (take (bt_name_max - 1) name) else none) in
    if l.auto_cid == 0 || l.sec_pending || not (addr == l.auto_addr) then (l, []) else decided

-- The security level event of `auto_hci_handler`.
unfoldable pub on_security : Link → ℕ → ℕ → ℕ → Result
on_security l handle status level =
    if l.auto_cid == 0 || not l.sec_pending || not (handle == l.auto_handle)
    then (l, [])
    else if not (status == 0) || ltb level 2
    then auto_fail l
    else (auto_release l, accept l.auto_cid ∷ [])
