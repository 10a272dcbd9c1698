-- ===== src/Ppp/Security.antt =====
-- The security mode: how main/ppp_link.c keeps it in flash, and how the BOOT button of
-- main/sec_button.c steps it.
pub mod Modes
use vetera_bridge.Prelude.{
  ℕ, ◌+◌, Bool, true, ◌&&◌, Option, none, some, List, [], ◌∷◌, ltb, ◌==◌, if◌then◌else◌, codes,
}

pub data SecMode : Type 0 where
  off on auto : SecMode

-- The value of an enum constant.
abbrev pub mode_code : SecMode → ℕ
mode_code off = 0
mode_code on = 1
mode_code auto = 2

abbrev pub mode_of_code : ℕ → SecMode
mode_of_code v = if v == 0 then off else if v == 1 then on else auto

-- `nvs_secure_load`: the argument is the value under "btsec" where the namespace opens and has one.
unfoldable pub secure_load : Bool → Option ℕ → SecMode
secure_load opened none = auto
secure_load opened (some v) = if opened then mode_of_code v else auto

-- `ppp_link_secure_save`
unfoldable pub secure_save : Bool → Option ℕ → SecMode → Option ℕ
secure_save opened key auto = if opened then none else key
secure_save opened key mode = if opened then some (mode_code mode) else key

-- `btsec_mode_str`
unfoldable pub mode_str : SecMode → List ℕ
mode_str off = codes "off"
mode_str on = codes "on"
mode_str auto = codes "auto"

-- `led_show`: 1 blink for off, 3 for on, 2 for auto.
unfoldable pub blinks : SecMode → ℕ
blinks off = 1
blinks on = 3
blinks auto = 2

-- The step of a long press: off, on, auto, off.
unfoldable pub next_mode : SecMode → SecMode
next_mode off = on
next_mode on = auto
next_mode auto = off

abbrev pub hold_ms : ℕ
hold_ms = 3000

abbrev pub debounce_ms : ℕ
debounce_ms = 50

abbrev pub poll_ms : ℕ
poll_ms = 20

-- The inner loop of `sec_button_task`: the list is what `btn_down` reads at each poll, and a list
-- that ends stands for a released button.
unfoldable pub held_for : List Bool → ℕ → ℕ
held_for [] held = held
held_for (down ∷ polls) held =
    let rest = held_for polls (held + poll_ms) in if down && ltb held hold_ms then rest else held

-- What a press does: nothing, blink the mode in effect, or step the saved mode and reboot.
pub data Press : Type 0 where
  ignored : Press
  shown : ℕ → Press
  stepped : SecMode → Press

-- One press in `sec_button_task`, with the mode in effect and the key in flash.
unfoldable pub press : List Bool → SecMode → Option ℕ → Press × Option ℕ
press polls effective key =
    let held = held_for polls 0 in
    let next = next_mode (secure_load true key) in
    if ltb held debounce_ms
    then (ignored, key)
    else if ltb held hold_ms
    then (shown (blinks effective), key)
    else (stepped next, secure_save true key next)
