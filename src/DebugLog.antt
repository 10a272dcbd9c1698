-- ===== src/DebugLog.antt =====
-- The switches of the extended logging, main/debug_log.c: the flags, their key in flash, and the
-- callback that hands them to BTstack's dump.
pub mod Applied
mod Tests
use vetera_bridge.Prelude.{
  ℕ, zero, suc, ◌+◌, bit_and, Bool, true, false, not, Option, none, some, List, [], ◌∷◌, ◌==◌,
  if◌then◌else◌,
}

-- `DBG_HCI_PACKETS | DBG_BTSTACK_LOG | DBG_VERBOSE`
abbrev pub dbg_all : ℕ
dbg_all = 7

-- What `hci_dump` prints: packets, and the lines of BTstack's own log.
pub record Dump : Type 0 where
  pub packets : Bool
  pub stack_log : Bool

-- `dbg_flags`, `apply_pending`, the value under "dbgflags" where it is set, and BTstack's dump.
pub record Switches : Type 0 where
  pub flags : ℕ
  pub pending : Bool
  pub saved : Option ℕ
  pub dump : Dump

-- `debug_log_on`
abbrev pub log_on : ℕ → ℕ → Bool
log_on flags flag = not (bit_and flags flag == 0)

-- `nvs_flags_load`; `opened` says whether the flash could be opened.
unfoldable pub flags_load : Bool → Switches → Switches
flags_load opened s =
    if opened
    then elim s.saved [ none ↦ s | some v ↦ record s { flags = bit_and v dbg_all } ]
    else s

-- `nvs_flags_save`
unfoldable pub flags_save : Bool → ℕ → Switches → Switches
flags_save opened flags s =
    if opened then record s { saved = if flags == 0 then none else some flags } else s

-- `apply_to_hci_dump`
unfoldable pub apply_to_hci_dump : Switches → Switches
apply_to_hci_dump s = record s {
  dump = record { packets = log_on s.flags 1; stack_log = log_on s.flags 2 };
}

-- `apply_cb`
unfoldable pub apply_cb : Switches → Switches
apply_cb s = apply_to_hci_dump (record s { pending = false })

-- `debug_log_set`, with whether the callback is queued; `flags` is a uint8_t.
unfoldable pub debug_log_set : Bool → ℕ → Switches → Switches × Bool
debug_log_set opened flags s =
    let kept = bit_and flags dbg_all in
    (flags_save opened kept (record s { flags = kept; pending = true }), not s.pending)

-- `debug_log_init` and `debug_log_bt_setup` at a start with the flash as it is.
unfoldable pub start : Bool → Option ℕ → Switches
start opened saved = apply_to_hci_dump (
    flags_load opened (record {
      flags = 0;
      pending = false;
      saved = saved;
      dump = record { packets = true; stack_log = true };
    }))

-- A change from the web page, or the callback on BTstack's task, which runs once for each time that it
-- was queued.
pub data Event : Type 0 where
  set_flags : Bool → ℕ → Event
  callback : Event

unfoldable pub step : Event → Switches × ℕ → Switches × ℕ
step (set_flags opened flags) (s, queued) =
    let (s', queues) = debug_log_set opened flags s in (s', if queues then queued + 1 else queued)
step callback (s, zero) = (s, zero)
step callback (s, suc queued) = (apply_cb s, queued)

unfoldable pub run : List Event → Switches × ℕ → Switches × ℕ
run [] p = p
run (e ∷ es) p = run es (step e p)
