-- ===== src/Proxy/Session/Cases.antt =====
-- The ways in which a connection to the proxy starts in main/http_proxy.c, as a rule for predicates.
use vetera_bridge.Prelude.{
  ℕ, ◌+◌, ◌≡◌, refl, ◌⊎◌, inl, inr, Option, none, some, List, ◌∷◌, arith, Option-cases, u32,
}
use vetera_bridge.Proxy.Session.{
  setup_ms, connecting, Session, opens, Shared, Connect, connected, pending, refused, Answers,
  sess_close,
}
use vetera_bridge.Proxy.Session.Setup.{proxy_addr, on_connected, try_connect, start_connect}

-- A failed start, and a start on a new socket.
abbrev pub resolving : Option (List ℕ × ℕ) → Shared → Shared
resolving r w = record w { resolved = r }

abbrev pub with_socket : ℕ → Session → Session
with_socket fd s = record s { px = some fd }

abbrev pub socket_made : ℕ → Shared → Shared
socket_made fd w = record w { calls = opens fd ∷ w.calls }

proxy_addr_shared :
    (io : Answers) (w : Shared) → (r : Option (List ℕ × ℕ)) × ((proxy_addr io w).1 ≡ resolving r w)
unfolding proxy_addr
proxy_addr_shared io w = ((proxy_addr io w).1.resolved, ground arith)

Connect-cases : (c : Connect) → (c ≡ connected) ⊎ ((c ≡ pending) ⊎ (c ≡ refused))
Connect-cases connected = inl refl
Connect-cases pending = inr (inl refl)
Connect-cases refused = inr (inr refl)

module _ (P : Session × Shared → Type 0) (io : Answers) (now : ℕ) where
  try_connect_cases :
      (s : Session) (w : Shared)
      → P (on_connected io now s w)
      → P (record s { stage = connecting; deadline = u32 (now + setup_ms) }, w)
      → P (sess_close io s (resolving none w))
      → P (try_connect io now s w)
  unfolding try_connect
  try_connect_cases s w h k l = elim (Connect-cases io.connect) [
    | inl e ↦ rw (try_connect, e) h
    | inr (inl e) ↦ rw (try_connect, e) k
    | inr (inr e) ↦ rw (try_connect, e) l
  ]

  -- A session is closed with no socket to the proxy, or goes on with a new one.
  pub start_connect_cases :
      (s : Session) (w : Shared)
      → ((r : Option (List ℕ × ℕ)) → P (sess_close io s (resolving r w)))
      → ((r : Option (List ℕ × ℕ)) (fd : ℕ)
          → let s' = with_socket fd s in
            let w' = socket_made fd (resolving r w) in
            P (on_connected io now s' w')
            × P (record s' { stage = connecting; deadline = u32 (now + setup_ms) }, w')
            × P (sess_close io s' (resolving none w')))
      → P (start_connect io now s w)
  unfolding start_connect
  start_connect_cases s w fails goes =
      let (r, e) = proxy_addr_shared io w in
      elim (Option-cases (proxy_addr io w).0) [
        | inl none_there ↦ rw (start_connect, none_there) (rw e (fails r))
        | inr (addr, there) ↦
            rw (start_connect, there)
              (elim (Option-cases io.new_socket) [
                | inl no_socket ↦ rw no_socket (rw e (fails r))
                | inr (fd, socket) ↦
                    let (h, k, l) = goes r fd in
                    rw socket (
                      rw e (
                        try_connect_cases (with_socket fd s) (socket_made fd (resolving r w)) h k
                          l))
              ])
      ]
