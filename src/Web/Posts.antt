-- ===== src/Web/Posts.antt =====
-- The bodies that are posted to main/web_ui.c, and what the pages for networks, bookmarks, the name and
-- the logging do with them. A decoded text ends at its first NUL, where the code passes it on. `query` stands for `httpd_query_key_value`: for a body, a key and the size of a
-- buffer, whether it gave ESP_OK, and the text that the buffer, empty before, holds then.
pub mod Submitted
use vetera_bridge.Prelude.{
  ℕ, zero, suc, ◌+◌, ◌-◌, Bool, false, not, ◌&&◌, Option, none, some, List, [], ◌∷◌, ◌++◌, ltb,
  if◌then◌else◌, length, take, codes,
}
use vetera_bridge.Wifi.Saved.{list_add}
use vetera_bridge.Gateway.{Gateway, wifi_kick_deferred}
use vetera_bridge.Naming.{Naming, bt_name_set}
use vetera_bridge.DebugLog.{Switches, debug_log_set}
use vetera_bridge.Proxy.Sni.{c_string}
use vetera_bridge.Web.{form_decode}

-- What `httpd_req_recv` may give: bytes, of which it takes no more than were asked for; a timeout; or an
-- error. No bytes are the end of the connection.
pub data Received : Type 0 where
  piece : List ℕ → Received
  timed_out broken : Received

-- What `recv_body` comes to: it waits for more, gives up, or has the body.
pub data Body : Type 0 where
  waiting lost : Body
  whole : List ℕ → Body

abbrev pub behind : List ℕ → Body → Body
behind got (whole rest) = whole (got ++ rest)
behind got waiting = waiting
behind got lost = lost

-- The loop, while so many bytes are wanted.
unfoldable pub recv_from : ℕ → List Received → Body
recv_from zero rs = whole []
recv_from (suc left) [] = waiting
recv_from (suc left) (timed_out ∷ rs) = recv_from (suc left) rs
recv_from (suc left) (broken ∷ rs) = lost
recv_from (suc left) (piece [] ∷ rs) = lost
recv_from (suc left) (piece (b ∷ bs) ∷ rs) =
    behind (b ∷ take left bs) (recv_from (left - length (take left bs)) rs)

unfoldable pub recv_body : ℕ → ℕ → List Received → Body
recv_body content_len size rs =
    recv_from (if ltb (size - 1) content_len then size - 1 else content_len) rs

-- `handler_wifi_add`, once the body is there; `ppp` says whether PPP is up.
unfoldable pub wifi_add : (List ℕ → List ℕ → ℕ → Bool × List ℕ) → Bool → List ℕ → Gateway → Gateway
wifi_add query ppp buf g =
    let (found, ns) = query buf (codes "ssid") 64 in
    let np = (query buf (codes "pass") 80).1 in
    let ssid = c_string (form_decode ns 64) in
    let pass = c_string (form_decode np 80) in
    let (saved, added) = list_add g.wifi.saved ssid (some pass) in
    let g' = record g { wifi = record g.wifi { saved = saved } } in
    if found
    then (if added && not g.wifi.connected && ltb 0 (length saved) && ppp
        then wifi_kick_deferred g'
        else g')
    else g

-- `handler_wifi_add`, with where it redirects: the body is missing where `recv_body` gave it up, which
-- gives ESP_FAIL.
unfoldable pub handler_wifi_add :
    (List ℕ → List ℕ → ℕ → Bool × List ℕ)
    → Bool
    → Option (List ℕ)
    → Gateway
    → Gateway × Option (List ℕ)
handler_wifi_add query ppp (some buf) g = (wifi_add query ppp buf g, some (codes "/wifi"))
handler_wifi_add query ppp none g = (g, none)

-- `handler_name_post`, once the body is there.
unfoldable pub name_post :
    (List ℕ → List ℕ → ℕ → Bool × List ℕ) → Bool → List ℕ → Naming → Naming × Bool
name_post query opened buf s =
    let (found, raw) = query buf (codes "name") 128 in
    if found then bt_name_set s opened (c_string (form_decode raw 128)) else (s, false)

-- `handler_debug_post`, once the body is there.
unfoldable pub debug_post :
    (List ℕ → List ℕ → ℕ → Bool × List ℕ) → Bool → List ℕ → Switches → Switches × Bool
debug_post query opened buf s =
    let hci = if (query buf (codes "hci") 4).0 then 1 else 0 in
    let stk = if (query buf (codes "stk") 4).0 then 2 else 0 in
    let vrb = if (query buf (codes "vrb") 4).0 then 4 else 0 in
    debug_log_set opened (hci + stk + vrb) s
