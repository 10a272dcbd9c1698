-- ===== src/Bootstrap/Runs.antt =====
-- The runs of main/bt_bootstrap.c: BTstack answers what it was asked, and every run ends.
use vetera_bridge.Prelude.{
  ℕ, ◌+◌, ◌-◌, ◌≤◌, ◌<◌, ◌≡◌, refl, ◌⊎◌, inl, inr, Bool, true, false, ◌&&◌, ◌||◌, List, [], ◌∷◌,
  arith, if◌then◌else◌, length, length-append,
}
use vetera_bridge.Bootstrap.{
  max_done, BootState, idle, wait_start, probe, target, connect, hold, num_target_classes, Boot,
  Link, is_idle, is_probe, is_connect, is_hold, is_target, boot_reset, on_opened, on_closed,
  on_service, class_done, on_complete, on_timer, on_pairing_complete, Event, paired, service,
  timer_due, closed, complete, opened, handle, at_boot, run,
}

-- Which events can come: the timer while it runs, the results of the query that is under way, the
-- outcome of the channel that is being opened, and the end of the one that is open. A phone can pair
-- at any time.
unfoldable pub can_come : Boot → Event → Bool
can_come b (paired a) = true
can_come b timer_due = b.timer
can_come b (service ch) = is_probe b.state || is_target b.state
can_come b (complete status) = is_probe b.state || is_target b.state
can_come b (opened status cid) = is_connect b.state
can_come b closed = is_hold b.state

-- The events that end a wait.
abbrev pub is_answer : Event → Bool
is_answer (paired a) = false
is_answer (service ch) = false
is_answer _ = true

-- The timer runs just while it is waited for, and the list of addresses keeps its size.
pub record IsBoot (b : Boot) : Type 0 where
  pub idle_clear : b.state ≡ idle → (b.timer ≡ false) × (b.target_channel ≡ 0) × (b.cid ≡ 0)
  pub waiting : b.state ≡ wait_start → b.timer ≡ true
  pub asking : is_probe b.state || is_target b.state || is_connect b.state ≡ true → b.timer ≡ false
  pub class_in : b.state ≡ target → b.class_idx < num_target_classes
  pub done_fits : length b.done ≤ max_done

pub at_boot-IsBoot : IsBoot at_boot
unfolding at_boot
at_boot-IsBoot = ground arith

pub handle-IsBoot :
    (l : Link) (e : Event) (b : Boot) → can_come b e ≡ true → IsBoot b → IsBoot (handle l e b).0
unfolding handle can_come boot_reset on_service on_timer on_complete class_done on_closed on_opened
    on_pairing_complete
handle-IsBoot l (paired a) b c v = ground (arith, v, length-append b.done (a ∷ []))
handle-IsBoot l (service ch) b c v = ground (arith, v, c)
handle-IsBoot l timer_due b c v = ground (arith, v, c)
handle-IsBoot l closed b c v = ground (arith, v, c)
handle-IsBoot l (complete status) b c v = ground (arith, v, c)
handle-IsBoot l (opened status cid) b c v = ground (arith, v, c)

-- How many answers a run still waits for, at most.
unfoldable pub rank : Boot → ℕ
rank b = elim b.state [
  | idle ↦ 0
  | wait_start ↦ 7
  | probe ↦ 6
  | target ↦ 5 - b.class_idx
  | connect ↦ 3
  | hold ↦ if b.timer then 2 else 1
]

abbrev pub count_answer : Event → ℕ
count_answer e = if is_answer e then 1 else 0

abbrev pub is_paired : Event → Bool
is_paired (paired a) = true
is_paired _ = false

handle_lowers :
    (l : Link) (e : Event) (b : Boot)
    → can_come b e ≡ true
    → IsBoot b
    → is_paired e && is_idle b.state ≡ false
    → count_answer e + rank (handle l e b).0 ≤ rank b
unfolding handle can_come rank boot_reset on_service on_timer on_complete class_done on_closed
    on_opened on_pairing_complete
handle_lowers l (paired a) b c v k = ground (arith, v, k)
handle_lowers l (service ch) b c v k = ground (arith, v, c)
handle_lowers l timer_due b c v k = ground (arith, v, c)
handle_lowers l closed b c v k = ground (arith, v, c)
handle_lowers l (complete status) b c v k = ground (arith, v, c)
handle_lowers l (opened status cid) b c v k = ground (arith, v, c)

-- Each event can come when it does, and no phone pairs while no run is under way.
abbrev pub IsRun : Boot → List (Link × Event) → Type 0
IsRun b [] = Unit
IsRun b ((l, e) ∷ es) =
    (can_come b e ≡ true) × (is_paired e && is_idle b.state ≡ false) × IsRun (handle l e b).0 es

unfoldable pub answers : List (Link × Event) → ℕ
answers [] = 0
answers ((l, e) ∷ es) = count_answer e + answers es

run-IsBoot : (es : List (Link × Event)) (b : Boot) → IsBoot b → IsRun b es → IsBoot (run es b)
unfolding run
run-IsBoot [] b v r = v
run-IsBoot ((l, e) ∷ es) b v (c, k, r) = run-IsBoot es (handle l e b).0 (handle-IsBoot l e b c v) r

run_lowers :
    (es : List (Link × Event)) (b : Boot)
    → IsBoot b
    → IsRun b es
    → answers es + rank (run es b) ≤ rank b
unfolding run answers
run_lowers [] b v r = omega arith
run_lowers ((l, e) ∷ es) b v (c, k, r) =
    omega
      (arith, handle_lowers l e b c v k, run_lowers es (handle l e b).0 (handle-IsBoot l e b c v) r)

BootState-cases :
    (s : BootState)
    → (s ≡ idle)
      ⊎ ((s ≡ wait_start) ⊎ ((s ≡ probe) ⊎ ((s ≡ target) ⊎ ((s ≡ connect) ⊎ (s ≡ hold)))))
BootState-cases idle = inl refl
BootState-cases wait_start = inr (inl refl)
BootState-cases probe = inr (inr (inl refl))
BootState-cases target = inr (inr (inr (inl refl)))
BootState-cases connect = inr (inr (inr (inr (inl refl))))
BootState-cases hold = inr (inr (inr (inr (inr refl))))

rank_most : (b : Boot) → rank b ≤ 7
unfolding rank
rank_most b = ground arith

rank_zero : (b : Boot) → IsBoot b → rank b ≡ 0 → b.state ≡ idle
unfolding rank
rank_zero b v z = ground (arith, v, z)

awaits :
    (b : Boot)
    → IsBoot b
    → (b.state ≡ idle) ⊎ ((e : Event) × (is_answer e ≡ true) × (can_come b e ≡ true))
unfolding can_come
awaits b v = elim (BootState-cases b.state) [
  | inl e ↦ inl e
  | inr (inl e) ↦ inr (timer_due, refl, v.waiting e)
  | inr (inr (inl e)) ↦ inr (complete 0, refl, rw e refl)
  | inr (inr (inr (inl e))) ↦ inr (complete 0, refl, rw e refl)
  | inr (inr (inr (inr (inl e)))) ↦ inr (opened 0 0, refl, rw e refl)
  | inr (inr (inr (inr (inr e)))) ↦ inr (closed, refl, rw e refl)
]

-- A run ends: of the answers that BTstack and the timer give to what the bridge asked, seven are
-- enough, whatever they say and whatever other events come between. Until then the bridge waits for an
-- answer that can come. No further phone pairs once the run has ended.
pub run_ends :
    (es : List (Link × Event)) (b : Boot)
    → IsBoot b
    → IsRun b es
    → (7 ≤ answers es → (run es b).state ≡ idle)
      × (((run es b).state ≡ idle)
          ⊎ ((e : Event) × (is_answer e ≡ true) × (can_come (run es b) e ≡ true)))
run_ends es b v r =
    let end = run-IsBoot es b v r in
    let most : rank b ≤ 7 = rank_most b in
    let left = run_lowers es b v r in
    ((λ h. rank_zero (run es b) end (omega (arith, most, left, h))), awaits (run es b) end)
