-- ===== src/Proxy/Session/Setup.antt =====
-- The stages of a session in main/http_proxy.c before bytes are copied.
use vetera_bridge.Prelude.{
  ℕ, ◌+◌, ◌-◌, ◌*◌, Bool, not, ◌&&◌, ◌||◌, Option, none, some, List, [], ◌∷◌, ◌++◌, ltb, leb, ◌==◌,
  if◌then◌else◌, length, get_or, take, drop, codes, bytes_eq, u32,
}
use vetera_bridge.Ppp.Handshake.{starts_with, crlf}
use vetera_bridge.Proxy.Settings.{proxy_host_max, strlcpy, proxy_get}
use vetera_bridge.Proxy.Flow.{idle_ms}
use vetera_bridge.Proxy.Sni.{named, tls_sni}
use vetera_bridge.Proxy.Request.{find_crlf2, http_rewrite}
use vetera_bridge.Proxy.Session.{
  up_sz, up_cap, down_sz, setup_ms, connecting, reply, splicing, Session, opens, sends, Shared,
  connected, pending, refused, Answers, on_fd, sess_close, sess_fail, bytes_of,
}

abbrev pub host_max : ℕ
host_max = 80

abbrev same_host : List ℕ → Option (List ℕ × ℕ) → Option ℕ
same_host host none = none
same_host host (some (h, a)) = if bytes_eq h host then some a else none

-- `proxy_addr`: the address and the port.
unfoldable pub proxy_addr : Answers → Shared → Option (ℕ × ℕ) × Shared
proxy_addr io w =
    let (_, host, port) = proxy_get w.settings proxy_host_max in
    if length host == 0 || port == 0 then (none, w) else elim (io.numeric host) [
      | some a ↦ (some (a, port), w)
      | none ↦ elim (same_host host w.resolved) [
        | some a ↦ (some (a, port), w)
        | none ↦ elim (io.resolve host) [
          | none ↦ (none, w)
          | some a ↦ (some (a, port), record w { resolved = some (strlcpy host proxy_host_max, a) })
        ]
      ]
    ]

unfoldable pub connect_text : List ℕ → List ℕ
connect_text host =
    codes "CONNECT "
    ++ (host
        ++ (codes ":443 HTTP/1.1"
            ++ (crlf ++ (codes "Host: " ++ (host ++ (codes ":443" ++ (crlf ++ crlf)))))))

unfoldable pub on_connected : Answers → ℕ → Session → Shared → Session × Shared
on_connected io now s w =
    let req = connect_text s.host in
    let gone = bytes_of io.send_px req in
    let tried = record w { calls = on_fd s.px (λ fd. sends fd gone) w.calls } in
    if s.tls
    then if leb 200 (length req)
      then sess_fail io s w
      else if length gone == length req
      then (record s { stage = reply; down = []; deadline = u32 (now + setup_ms) }, tried)
      else sess_fail io s tried
    else (record s { stage = splicing; up_off = 0; deadline = u32 (now + idle_ms) }, w)

-- The new socket is in `px`.
unfoldable pub try_connect : Answers → ℕ → Session → Shared → Session × Shared
try_connect io now s w = elim io.connect [
  | connected ↦ on_connected io now s w
  | pending ↦ (record s { stage = connecting; deadline = u32 (now + setup_ms) }, w)
  | refused ↦ sess_fail io s (record w { resolved = none })
]

unfoldable pub start_connect : Answers → ℕ → Session → Shared → Session × Shared
start_connect io now s w =
    let (addr, w) = proxy_addr io w in
    elim addr [
      | none ↦ sess_fail io s w
      | some _ ↦ elim io.new_socket [
        | none ↦ sess_fail io s w
        | some fd ↦
            try_connect io now (record s { px = some fd }) (record w { calls = opens fd ∷ w.calls })
      ]
    ]

-- The server name, or the address that the phone connected to.
abbrev pub sni_host : Answers → Session → List ℕ
sni_host io s = elim (tls_sni s.up host_max) [ named h ↦ h | _ ↦ io.ntoa s.orig_ip ]

-- Is more of the ClientHello to come?
abbrev pub hello_partial : List ℕ → Bool
hello_partial up =
    let rec = 5 + (get_or up 3 0 * 256 + get_or up 4 0) in
    get_or up 0 0 == 0x16 && ltb (length up) rec && ltb (length up) up_sz

-- The branch for HTTP, once the head has ended after `n` bytes.
unfoldable pub head_rewritten : Answers → ℕ → ℕ → Session → Shared → Session × Shared
head_rewritten io now n s w =
    let body = drop n s.up in
    let (out, host) =
      http_rewrite io.ntoa (take n s.up) s.orig_ip (up_cap - length body) host_max s.host in
    if not io.has_memory then sess_fail io s w else elim out [
      | none ↦ sess_fail io (record s { host = host }) w
      | some text ↦ start_connect io now (record s { host = host; up = text ++ body }) w
    ]

unfoldable pub head_ready : Answers → ℕ → Session → Shared → Session × Shared
head_ready io now s w =
    if s.tls
    then if ltb (length s.up) 5 || hello_partial s.up
      then (s, w)
      else start_connect io now (record s { host = sni_host io s }) w
    else elim (find_crlf2 s.up) [
      | none ↦ if leb up_sz (length s.up) then sess_fail io s w else (s, w)
      | some e ↦ head_rewritten io now (e + 4) s w
    ]

abbrev pub is_refusal : List ℕ → Bool
is_refusal d =
    not (starts_with d (codes "HTTP/1.")) || ltb (length d) 12 || not (get_or d 9 0 == b'2')

unfoldable pub reply_ready : Answers → ℕ → Session → Shared → Session × Shared
reply_ready io now s w = elim (find_crlf2 s.down) [
  | none ↦ if leb (down_sz - 1) (length s.down) then sess_fail io s w else (s, w)
  | some e ↦ if is_refusal s.down then sess_close io s w else (
    record s {
      down = drop (e + 4) s.down;
      down_off = 0;
      up_off = 0;
      stage = splicing;
      deadline = u32 (now + idle_ms);
    },
    w,
  )
]
