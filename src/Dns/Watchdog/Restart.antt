-- ===== src/Dns/Watchdog/Restart.antt =====
-- When the watchdog of main/dns_fwd.c starts the DNS task anew.
use vetera_bridge.Prelude.{
  ℕ, ◌≡◌, refl, Bool, true, false, not, ◌&&◌, List, [], ◌∷◌, arith, if◌then◌else◌,
}
use vetera_bridge.Dns.Cache.{cache_clear}
use vetera_bridge.Dns.Watchdog.{
  Monitor, is_hung, watchdog_check, Event, beat, begin, leave, pass, step, run, at_boot,
}

-- Whether the last heartbeat found a hang that it did not act on yet, by the history alone.
abbrev pub suspected_by : Event → Monitor → Bool → Bool
suspected_by (beat now later) m before = is_hung m now && not before
suspected_by _ m before = before

unfoldable pub suspected : Monitor → List Event → Bool → Bool
suspected m [] before = before
suspected m (e ∷ es) before = suspected (step m e).0 es (suspected_by e m before)

abbrev Counts : Monitor → Bool → Type 0
Counts m b = m.stuck ≡ (if b then 1 else 0)

step-Counts :
    (m : Monitor) (e : Event) (b : Bool) → Counts m b → Counts (step m e).0 (suspected_by e m b)
unfolding step watchdog_check
step-Counts m (beat now later) b h = ground arith
step-Counts m begin b h = h
step-Counts m leave b h = h
step-Counts m (pass now) b h = ground arith

run-Counts :
    (m : Monitor) (es : List Event) (b : Bool) → Counts m b → Counts (run m es) (suspected m es b)
unfolding run suspected
run-Counts m [] b h = h
run-Counts m (e ∷ es) b h = run-Counts (step m e).0 es (suspected_by e m b) (step-Counts m e b h)

-- Whatever heartbeats and task events came before, a heartbeat starts the DNS task anew exactly
-- when it finds the task hung and the heartbeat before it did so too without acting; it then leaves
-- an empty cache, a live task and a fresh clock, so the next heartbeat cannot act again. A
-- heartbeat that does not act leaves the task and the cache as they were.
pub watchdog_restarts :
    (boot : ℕ) (es : List Event) (now later : ℕ)
    → let m = run (at_boot boot) es in
      let m' = watchdog_check m now later in
      (m'.1 ≡ (is_hung m now && suspected (at_boot boot) es false))
      × (m'.1 ≡ true
          → (m'.0.cache ≡ cache_clear)
            × (m'.0.task ≡ true)
            × (m'.0.last_alive ≡ later)
            × (m'.0.stuck ≡ 0))
      × (m'.1 ≡ false → (m'.0.cache ≡ m.cache) × (m'.0.task ≡ m.task))
unfolding watchdog_check
watchdog_restarts boot es now later = ground (arith, run-Counts (at_boot boot) es false refl)
