-- ===== src/Naming.antt =====
-- The bridge's Bluetooth name (main/bt_name.c). The web page's task sets a name; the BTstack task applies it.
pub mod Applied
mod Tests
use vetera_bridge.Prelude.{
  ℕ, zero, suc, ◌+◌, ◌-◌, ◌*◌, ◌/◌, ◌%◌, Bool, true, false, not, ◌&&◌, ◌||◌, Option, none, some,
  List, [], ◌∷◌, ◌++◌, ltb, ◌==◌, if◌then◌else◌, length, codes,
}
use vetera_bridge.Ppp.Link.{bt_name_max}
use vetera_bridge.Proxy.Settings.{strlcpy}

abbrev pub bt_name_custom_max : ℕ
bt_name_custom_max = 24

abbrev pub bt_name_prefix : List ℕ
bt_name_prefix = codes "Vetera Bridge"

pub record Naming : Type 0 where
  pub active : List ℕ  -- `name_active`
  pub custom : List ℕ  -- `name_custom`, empty for none
  pub derived : List ℕ  -- `name_derived`
  pub pending : Bool  -- `apply_pending`
  pub saved : Option (List ℕ)  -- "btname"

-- The digits of a number of so many digits at most, in front of others.
unfoldable pub decimal : ℕ → ℕ → List ℕ → List ℕ
decimal zero n digits = digits
decimal (suc fuel) n digits =
    let rest = decimal fuel (n / 10) ((48 + n % 10) ∷ digits) in
    if ltb n 10 then (48 + n % 10) ∷ digits else rest

-- The name of an address, by its last two bytes.
abbrev pub name_of : ℕ → ℕ → List ℕ
name_of b4 b5 = strlcpy (bt_name_prefix ++ (b' ' ∷ decimal 5 (b4 * 256 + b5) [])) bt_name_max

-- `custom[0] != '\0' ? custom : derived`
abbrev pub chosen : List ℕ → List ℕ → List ℕ
chosen custom derived = if length custom == 0 then derived else custom

-- `bt_name_apply_from_addr`, with the address of the controller.
unfoldable pub apply_from_addr : Naming → ℕ → ℕ → Naming
apply_from_addr s b4 b5 = record s {
  derived = name_of b4 b5;
  active = strlcpy (chosen s.custom (name_of b4 b5)) bt_name_max;
}

-- `apply_cb`
unfoldable pub apply_cb : Naming → ℕ → ℕ → Naming
apply_cb s b4 b5 = apply_from_addr (record s { pending = false }) b4 b5

-- The loop of `bt_name_set`: printable ASCII, as far as there is room.
unfoldable pub skip_spaces : List ℕ → List ℕ
skip_spaces [] = []
skip_spaces (b ∷ bs) = if b == b' ' then skip_spaces bs else b ∷ bs

unfoldable pub copy_printable : ℕ → List ℕ → List ℕ
copy_printable room [] = []
copy_printable room (b ∷ bs) =
    if room == 0
    then []
    else if ltb b 0x20 || ltb 0x7e b
    then copy_printable room bs
    else b ∷ copy_printable (room - 1) bs

unfoldable pub trim_spaces : List ℕ → List ℕ
trim_spaces [] = []
trim_spaces (b ∷ bs) =
    let rest = trim_spaces bs in if length rest == 0 && b == b' ' then [] else b ∷ rest

unfoldable pub clean_name : List ℕ → List ℕ
clean_name name = trim_spaces (copy_printable bt_name_custom_max (skip_spaces name))

-- `nvs_name_save`; an empty name erases the key.
abbrev pub name_save : Bool → Option (List ℕ) → List ℕ → Option (List ℕ)
name_save opened saved name =
    if opened then (if length name == 0 then none else some name) else saved

-- `bt_name_set`, and whether it queues the callback.
unfoldable pub bt_name_set : Naming → Bool → List ℕ → Naming × Bool
bt_name_set s opened name =
    let clean = clean_name name in
    (
      record s {
        custom = strlcpy clean bt_name_max;
        pending = true;
        saved = name_save opened s.saved clean;
      },
      not s.pending,
    )

-- `bt_name_init`, with `nvs_name_load`: a text that does not fit is not read.
abbrev pub name_load : Bool → Option (List ℕ) → List ℕ
name_load opened none = []
name_load opened (some name) = if opened && ltb (length name) bt_name_max then name else []

unfoldable pub bt_name_init : Bool → Option (List ℕ) → Naming
bt_name_init opened saved =
    let custom = name_load opened saved in
    record {
      active = if length custom == 0 then bt_name_prefix else custom;
      custom = custom;
      derived = [];
      pending = false;
      saved = saved;
    }
