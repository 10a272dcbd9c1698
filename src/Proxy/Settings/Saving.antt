-- ===== src/Proxy/Settings/Saving.antt =====
-- What the next boot reads of the proxy settings of main/http_proxy.c.
use vetera_bridge.Prelude.{ℕ, ◌≤◌, ◌<◌, ◌≡◌, Bool, true, false, List, arith, length, take}
use vetera_bridge.Proxy.Settings.{Saved, proxy_set, settings_load}

-- Settings with a host of at most 63 bytes that were saved are the settings of the next boot, ready
-- or not as before; a longer host is cut at once, but the next boot reads none and has no proxy.
pub settings_load-proxy_set :
    (saved : Saved) (on : Bool) (host : List ℕ) (port : ℕ)
    → let (now, kept) = proxy_set true saved on host port in
      (length host < 64 → settings_load true kept ≡ now)
      × (64 ≤ length host → ((settings_load true kept).ready ≡ false) × (now.host ≡ take 63 host))
unfolding proxy_set settings_load
settings_load-proxy_set saved true host port = (λ h. ground (arith, h), λ h. ground (arith, h))
settings_load-proxy_set saved false host port = (λ h. ground (arith, h), λ h. ground (arith, h))
