-- ===== src/Bootstrap.antt =====
-- The one-shot connection into a newly paired phone, main/bt_bootstrap.c. An address is a number; the
-- calls of BTstack are the actions that a handler returns.
pub mod Runs
pub mod Once
mod Tests
use vetera_bridge.Prelude.{
  ℕ, ◌+◌, Bool, true, false, not, ◌&&◌, ◌||◌, List, [], ◌∷◌, ◌++◌, ltb, ◌==◌, if◌then◌else◌, length,
}

-- `NVM_NUM_LINK_KEYS`
abbrev pub max_done : ℕ
max_done = 16

pub data BootState : Type 0 where
  idle wait_start probe target connect hold : BootState

-- The class of a service that the phone is asked for, by its index in `target_classes`.
abbrev pub num_target_classes : ℕ
num_target_classes = 2

abbrev pub target_class : ℕ → ℕ
target_class i = if i == 0 then 0x1101 else 0x1103

pub record Boot : Type 0 where
  pub state : BootState
  pub addr : ℕ
  pub target_channel : ℕ
  pub class_idx : ℕ
  pub cid : ℕ
  pub done : List ℕ  -- `done_addrs`, as far as `done_count`
  pub timer : Bool  -- is `boot_timer` running?

pub data Action : Type 0 where
  asks_services drops_acl : ℕ → Action
  asks_class opens_channel : ℕ → ℕ → Action
  closes_channel : ℕ → Action

-- What the rest of the bridge and BTstack answer: whether a session is open, whether there is a
-- baseband link to the phone, and whether a query or a channel could be started.
pub record Link : Type 0 where
  pub bt_connected : Bool
  pub has_acl : Bool
  pub starts : Bool

abbrev pub has_addr : ℕ → List ℕ → Bool
has_addr a [] = false
has_addr a (b ∷ bs) = b == a || has_addr a bs

abbrev pub is_idle : BootState → Bool
is_idle idle = true
is_idle _ = false

abbrev pub is_probe : BootState → Bool
is_probe probe = true
is_probe _ = false

abbrev pub is_connect : BootState → Bool
is_connect connect = true
is_connect _ = false

abbrev pub is_hold : BootState → Bool
is_hold hold = true
is_hold _ = false

abbrev pub is_target : BootState → Bool
is_target target = true
is_target _ = false

abbrev pub cleared : Boot → Boot
cleared b = record b { state = idle; target_channel = 0; class_idx = 0; cid = 0; timer = false }

unfoldable pub boot_reset : Bool → Link → Boot → Boot × List Action
boot_reset drop_acl l b = (cleared b, if drop_acl && l.has_acl then drops_acl b.addr ∷ [] else [])

-- A query or a channel was asked for; where that did not start, the run is given up.
abbrev pub started : Link → Action → Boot → Boot × List Action
started l act b =
    let (b', acts) = boot_reset true l b in if l.starts then (b, act ∷ []) else (b', act ∷ acts)

-- `RFCOMM_EVENT_CHANNEL_OPENED`
unfoldable pub on_opened : Link → ℕ → ℕ → Boot → Boot × List Action
on_opened l status cid b =
    if not (status == 0)
    then boot_reset true l b
    else (record b { cid = cid; state = hold; timer = true }, [])

-- `RFCOMM_EVENT_CHANNEL_CLOSED`
unfoldable pub on_closed : Link → Boot → Boot × List Action
on_closed l b = boot_reset true l b

-- `SDP_EVENT_QUERY_RFCOMM_SERVICE`
unfoldable pub on_service : ℕ → Boot → Boot × List Action
on_service ch b = (
  if is_target b.state && b.target_channel == 0 && not (ch == 0)
      then record b { target_channel = ch }
      else b,
  [],
)

-- `SDP_EVENT_QUERY_COMPLETE` for one of the classes
unfoldable pub class_done : Link → Boot → Boot × List Action
class_done l b =
    let next = b.class_idx + 1 in
    if b.target_channel == 0
    then if ltb next num_target_classes
      then started l (asks_class b.addr (target_class next)) (record b { class_idx = next })
      else boot_reset true l (record b { class_idx = next })
    else started l (opens_channel b.addr b.target_channel) (record b { state = connect })

unfoldable pub on_complete : Link → ℕ → Boot → Boot × List Action
on_complete l status b =
    if is_probe b.state
    then if not (status == 0)
      then boot_reset true l b
      else started l (asks_class b.addr (target_class 0))
          (record b { state = target; class_idx = 0 })
    else class_done l b

-- `boot_timer_handler`; BTstack has taken the timer off its list.
unfoldable pub on_timer : Link → Boot → Boot × List Action
on_timer l b =
    let b = record b { timer = false } in
    elim b.state [
      | wait_start ↦
          if l.bt_connected
          then boot_reset false l b
          else started l (asks_services b.addr) (record b { state = probe })
      | hold ↦ (b, closes_channel b.cid ∷ [])
      | _ ↦ (b, [])
    ]

-- `bt_bootstrap_on_pairing_complete`
unfoldable pub on_pairing_complete : ℕ → Boot → Boot × List Action
on_pairing_complete a b =
    if not (is_idle b.state) then (b, []) else if has_addr a b.done then (b, []) else (
      record b {
        done = if ltb (length b.done) max_done then b.done ++ (a ∷ []) else b.done;
        addr = a;
        state = wait_start;
        timer = true;
      },
      [],
    )

pub data Event : Type 0 where
  paired service : ℕ → Event
  timer_due closed : Event
  complete : ℕ → Event
  opened : ℕ → ℕ → Event

unfoldable pub handle : Link → Event → Boot → Boot × List Action
handle l (paired a) b = on_pairing_complete a b
handle l (service ch) b = on_service ch b
handle l timer_due b = on_timer l b
handle l closed b = on_closed l b
handle l (complete status) b = on_complete l status b
handle l (opened status cid) b = on_opened l status cid b

unfoldable pub at_boot : Boot
at_boot = record {
  state = idle;
  addr = 0;
  target_channel = 0;
  class_idx = 0;
  cid = 0;
  done = [];
  timer = false;
}

-- The state after some events.
unfoldable pub run : List (Link × Event) → Boot → Boot
run [] b = b
run ((l, e) ∷ es) b = run es (handle l e b).0
