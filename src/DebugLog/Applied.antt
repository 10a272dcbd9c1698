-- ===== src/DebugLog/Applied.antt =====
-- The switches of main/debug_log.c reach the dump, and outlive a restart.
use vetera_bridge.Prelude.{
  ℕ, zero, suc, ◌+◌, ◌<◌, bit_and, ◌≡◌, refl, ap, Bool, true, false, not, Option, none, some, List,
  [], ◌∷◌, arith, ◌==◌, if◌then◌else◌, ==→eq, all_below, all_below→eq,
}
use vetera_bridge.DebugLog.{
  dbg_all, Dump, Switches, log_on, flags_load, flags_save, apply_to_hci_dump, apply_cb,
  debug_log_set, start, Event, set_flags, callback, step, run,
}

abbrev pub dumped : ℕ → Dump
dumped flags = record { packets = log_on flags 1; stack_log = log_on flags 2 }

-- A change is on its way just while the callback is queued, once; else the dump has the flags.
record IsApplied (p : Switches × ℕ) : Type 0 where
  queued : p.1 ≡ (if p.0.pending then 1 else 0)
  dump : p.0.pending ≡ false → p.0.dump ≡ dumped p.0.flags

step-IsApplied : (e : Event) (p : Switches × ℕ) → IsApplied p → IsApplied (step e p)
unfolding step debug_log_set flags_save apply_cb apply_to_hci_dump
step-IsApplied (set_flags opened flags) (s, queued) v = ground (arith, v)
step-IsApplied callback (s, zero) v = v
step-IsApplied callback (s, suc queued) v = ground (arith, v)

run-IsApplied : (es : List Event) (p : Switches × ℕ) → IsApplied p → IsApplied (run es p)
unfolding run
run-IsApplied [] p v = v
run-IsApplied (e ∷ es) p v = run-IsApplied es (step e p) (step-IsApplied e p v)

start-IsApplied : (opened : Bool) (saved : Option ℕ) → IsApplied (start opened saved, 0)
unfolding start apply_to_hci_dump flags_load
start-IsApplied opened saved = ground arith

and_all_idem : (v : ℕ) → v < 256 → bit_and (bit_and v dbg_all) dbg_all ≡ bit_and v dbg_all
and_all_idem v h = ==→eq _ _ (
    all_below→eq 256 (λ v. bit_and (bit_and v dbg_all) dbg_all == bit_and v dbg_all) v
      (unfold all_below in refl) h)

reload : (k : ℕ) → bit_and k dbg_all ≡ k → (start true (if k == 0 then none else some k)).flags ≡ k
unfolding start apply_to_hci_dump flags_load
reload k e = ground (arith, e)

reload_dump :
    (k : ℕ) → bit_and k dbg_all ≡ k → (start true (if k == 0 then none else some k)).dump ≡ dumped k
unfolding start apply_to_hci_dump
reload_dump k e = ap dumped (reload k e)

switched :
    (flags : ℕ) (p : Switches × ℕ)
    → IsApplied p
    → let kept = bit_and flags dbg_all in
      let q = step callback (step (set_flags true flags) p) in
      (q.0.dump ≡ dumped kept) × (q.1 ≡ 0) × (q.0.saved ≡ (if kept == 0 then none else some kept))
unfolding step debug_log_set flags_save apply_cb apply_to_hci_dump
switched flags (s, queued) v =
    let one : (if not s.pending then queued + 1 else queued) ≡ 1 = ground (arith, v.queued) in
    rw one (refl, refl, refl)

restarted :
    (k : ℕ) (saved : Option ℕ)
    → bit_and k dbg_all ≡ k
    → saved ≡ (if k == 0 then none else some k)
    → ((start true saved).flags ≡ k) × ((start true saved).dump ≡ dumped k)
restarted k saved known e = rw e (reload k known, reload_dump k known)

-- Whatever was switched before, from any start: once a byte of flags is set and the callback has run, the
-- dump prints what the three known flags of it say, no callback is left, and a start with the flash as
-- it then is has the same flags and the same dump. The flash can be opened.
pub set_reaches_dump :
    (es : List Event) (opened : Bool) (saved : Option ℕ) (flags : ℕ)
    → flags < 256
    → let kept = bit_and flags dbg_all in
      let p = step callback (step (set_flags true flags) (run es (start opened saved, 0))) in
      (p.0.dump ≡ dumped kept)
      × (p.1 ≡ 0)
      × ((start true p.0.saved).flags ≡ kept)
      × ((start true p.0.saved).dump ≡ dumped kept)
set_reaches_dump es opened saved flags h =
    let v = run-IsApplied es (start opened saved, 0) (start-IsApplied opened saved) in
    let done = switched flags (run es (start opened saved, 0)) v in
    let again = restarted (bit_and flags dbg_all) _ (and_all_idem flags h) done.2 in
    (done.0, done.1, again.0, again.1)
