-- ===== src/Ppp/Security/Modes.antt =====
-- The saved security mode and the BOOT button (main/ppp_link.c, main/sec_button.c).
use vetera_bridge.Prelude.{
  ℕ, suc, ◌+◌, ◌*◌, ◌≤◌, ◌<◌, min, ◌≡◌, refl, ◌∙◌, ◌≢◌, inl, inr, Bool, true, false, Option, List,
  [], ◌∷◌, arith, ltb, ltb→lt, ltb_false→le, Bool-cases,
}
use vetera_bridge.Ppp.Security.{
  SecMode, off, on, auto, secure_load, secure_save, blinks, next_mode, hold_ms, held_for, ignored,
  shown, stepped, press,
}

load_save : (key : Option ℕ) (m : SecMode) → secure_load true (secure_save true key m) ≡ m
unfolding secure_load secure_save
load_save key off = refl
load_save key on = refl
load_save key auto = refl

-- How long a button is held, by the polls that read it as pressed.
abbrev pub pressed : List Bool → ℕ
pressed [] = 0
pressed (true ∷ polls) = suc (pressed polls)
pressed (false ∷ polls) = 0

held_for-eq-pressed :
    (polls : List Bool) (held : ℕ) (k : ℕ)
    → held ≡ 20 * k
    → k ≤ 150
    → held_for polls held ≡ min (20 * (k + pressed polls)) 3000
unfolding held_for
held_for-eq-pressed [] held k e h = omega arith
held_for-eq-pressed (false ∷ polls) held k e h = omega arith
held_for-eq-pressed (true ∷ polls) held k e h = elim (Bool-cases (ltb held hold_ms)) [
  | inl t ↦ rw t (
      held_for-eq-pressed polls (held + 20) (k + 1) (omega arith) (omega (arith, ltb→lt _ _ t))
      ∙ omega arith)
  | inr f ↦ rw f (omega (arith, ltb_false→le _ _ f))
]

-- A press of fewer than three polls does nothing, one of fewer than 150 (three seconds) shows the
-- mode in effect and saves nothing, and a longer one saves the next mode after the saved one, which
-- the boot that follows reads back.
pub press_lem :
    (polls : List Bool) (effective : SecMode) (key : Option ℕ)
    → (pressed polls < 3 → press polls effective key ≡ (ignored, key))
      × (3 ≤ pressed polls
          → pressed polls < 150
          → press polls effective key ≡ (shown (blinks effective), key))
      × (150 ≤ pressed polls
          → ((press polls effective key).0 ≡ stepped (next_mode (secure_load true key)))
            × (secure_load true (press polls effective key).1 ≡ next_mode (secure_load true key)))
unfolding press
press_lem polls effective key =
    let held = held_for-eq-pressed polls 0 0 (omega arith) (omega arith) in
    (
      λ h. ground (arith, held),
      λ h l. ground (arith, held),
      λ h. ground (arith, held, load_save key (next_mode (secure_load true key))),
    )

-- Three long presses, each followed by the boot that reads the key, come back to the mode that was
-- saved first, and the three modes blink differently.
pub next_mode_cycle :
    (m n : SecMode)
    → (next_mode (next_mode (next_mode m)) ≡ m) × (next_mode m ≢ m) × (blinks m ≡ blinks n → m ≡ n)
unfolding next_mode blinks
next_mode_cycle m n = ground arith
