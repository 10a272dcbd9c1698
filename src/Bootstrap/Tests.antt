-- ===== src/Bootstrap/Tests.antt =====
-- A run of main/bt_bootstrap.c into one phone.
use vetera_bridge.Prelude.{◌≤◌, ◌≡◌, refl, ◌⊎◌, true, false, List, [], ◌∷◌, arith}
use vetera_bridge.Bootstrap.{
  idle, wait_start, probe, Boot, Link, boot_reset, on_opened, on_closed, on_service, class_done,
  on_complete, on_timer, on_pairing_complete, Event, paired, service, timer_due, closed, complete,
  opened, handle, at_boot, run,
}
use vetera_bridge.Bootstrap.Runs.{can_come, is_answer, IsBoot, IsRun, answers, run_ends}
use vetera_bridge.Bootstrap.Once.{
  Distinct, begins, begun, runs_go_to_new_phones, has_drop, end_drops_acl,
}

abbrev free_link : Link
free_link = record { bt_connected = false; has_acl = true; starts = true }

-- A phone that has only the modem service.
abbrev modem_run : List (Link × Event)
modem_run =
    (free_link, timer_due)
    ∷ (free_link, service 5)
    ∷ (free_link, complete 0)
    ∷ (free_link, complete 0)
    ∷ (free_link, service 5)
    ∷ (free_link, complete 0)
    ∷ (free_link, opened 0 65)
    ∷ (free_link, timer_due)
    ∷ (free_link, closed)
    ∷ []

abbrev waiting_phone : Boot
waiting_phone = record {
  state = wait_start;
  addr = 77;
  target_channel = 0;
  class_idx = 0;
  cid = 0;
  done = 77 ∷ [];
  timer = true;
}

waiting_phone-IsBoot : IsBoot waiting_phone
waiting_phone-IsBoot = ground arith

modem_run-IsRun : IsRun waiting_phone modem_run
unfolding can_come handle on_timer on_service on_complete class_done on_opened on_closed boot_reset
modem_run-IsRun = (
  refl,
  refl,
  (
    refl,
    refl,
    (
      refl,
      refl,
      (refl, refl, (refl, refl, (refl, refl, (refl, refl, (refl, refl, (refl, refl, tt)))))),
    ),
  ),
)

run_ends_example :
    (7 ≤ answers modem_run → (run modem_run waiting_phone).state ≡ idle)
    × (((run modem_run waiting_phone).state ≡ idle)
        ⊎ ((e : Event) × (is_answer e ≡ true) × (can_come (run modem_run waiting_phone) e ≡ true)))
run_ends_example = run_ends modem_run waiting_phone waiting_phone-IsBoot modem_run-IsRun

abbrev two_pairings : List (Link × Event)
two_pairings =
    (free_link, paired 77)
    ∷ (free_link, timer_due)
    ∷ (free_link, complete 4)
    ∷ (free_link, paired 77)
    ∷ []

runs_go_to_new_phones_example : Distinct (begun two_pairings at_boot)
unfolding can_come handle on_timer on_complete on_pairing_complete boot_reset at_boot begun begins
runs_go_to_new_phones_example =
    runs_go_to_new_phones two_pairings (refl, (refl, (refl, (refl, tt)))) (omega arith)

one_run : begun two_pairings at_boot ≡ 77 ∷ []
unfolding handle on_timer on_complete on_pairing_complete boot_reset at_boot begun begins
one_run = refl

end_drops_acl_example :
    (has_drop 77 (handle free_link (complete 4) (record waiting_phone { state = probe })).1 ≡ true)
    ⊎ ((probe ≡ wait_start)
        × (false ≡ true)
        × ((handle free_link (complete 4) (record waiting_phone { state = probe })).1 ≡ []))
unfolding handle on_complete boot_reset
end_drops_acl_example =
    end_drops_acl free_link (complete 4) (record waiting_phone { state = probe }) (λ e. cc) refl
