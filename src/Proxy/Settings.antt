-- ===== src/Proxy/Settings.antt =====
-- The proxy settings of main/http_proxy.c: the shared variables and their keys in flash. A text is
-- the list of its bytes.
pub mod Saving
use vetera_bridge.Prelude.{
  ℕ, ◌-◌, Bool, false, not, ◌&&◌, Option, none, some, List, [], ltb, ◌==◌, if◌then◌else◌, length,
  take,
}

abbrev pub proxy_host_max : ℕ
proxy_host_max = 64

-- `strlcpy` into a buffer of `n` bytes: what the buffer then reads as.
abbrev pub strlcpy : List ℕ → ℕ → List ℕ
strlcpy src n = take (n - 1) src

pub record Settings : Type 0 where
  pub on : Bool
  pub host : List ℕ
  pub port : ℕ  -- uint16
  pub ready : Bool

-- The values under "px_on", "px_host" and "px_port", where they are set.
pub record Saved : Type 0 where
  pub on : Option ℕ
  pub host : Option (List ℕ)
  pub port : Option ℕ

abbrev pub get_or_else {ℓ} : {A : Type ℓ} → Option A → A → A
get_or_else none d = d
get_or_else (some a) d = a

-- `px_on && px_host[0] && px_port`
abbrev pub is_ready : Bool → List ℕ → ℕ → Bool
is_ready on host port = on && not (length host == 0) && not (port == 0)

abbrev pub configure : Bool → List ℕ → ℕ → Settings
configure on host port =
    let kept = strlcpy host proxy_host_max in
    record { on = on; host = kept; port = port; ready = is_ready on kept port }

-- `proxy_set`; `opened` says whether the flash namespace could be opened.
unfoldable pub proxy_set : Bool → Saved → Bool → List ℕ → ℕ → Settings × Saved
proxy_set opened saved on host port = (
  configure on host port,
  if opened
      then record { on = some (if on then 1 else 0); host = some host; port = some port }
      else saved,
)

-- `settings_load`: a text that does not fit the buffer is not read.
unfoldable pub settings_load : Bool → Saved → Settings
settings_load opened saved =
    let host = get_or_else saved.host [] in
    let fits = if ltb (length host) proxy_host_max then host else [] in
    if opened
    then configure (not (get_or_else saved.on 0 == 0)) fits (get_or_else saved.port 0)
    else configure false [] 0

-- `proxy_get` into a buffer of `n` bytes.
unfoldable pub proxy_get : Settings → ℕ → Bool × List ℕ × ℕ
proxy_get s n = (s.on, strlcpy s.host n, s.port)
